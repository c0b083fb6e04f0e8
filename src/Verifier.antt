-- ===== src/Verifier.antt =====
-- The pallet pallets/verifier: dominators (off-chain matchers), the funds that users place under
-- them, staking on them, and the verification of their proofs of trades.
pub mod Types
pub mod Reserves
pub mod Custody
pub mod Staking
pub mod Dominators
pub mod Leaf
pub mod Clearing
pub mod Conserved
pub mod Ask
pub mod Bid
pub mod Transfers
pub mod Update
pub mod Batch
pub mod Hosting
pub mod Untouched
pub mod Eviction
pub mod Follows
pub mod History
pub mod Sample
mod Tests
mod OrderTests
