-- ===== src/Bridge.antt =====
-- pallets/chainbridge: relayers vote on proposals, and transfers leave for other chains.
pub mod Types
pub mod Admin
pub mod Proposals
pub mod Transfers
pub mod History
pub mod Relayers
pub mod Effects
pub mod Writes
pub mod Votes
pub mod Fair
pub mod Ready
pub mod Quorum
pub mod Approval
pub mod Counted
pub mod Sample
mod Tests
