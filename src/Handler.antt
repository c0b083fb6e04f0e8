-- ===== src/Handler.antt =====
-- pallets/chainbridge-handler: the assets that the bridge moves.
pub mod Types
pub mod Outgoing
pub mod Incoming
pub mod Locked
pub mod Burned
mod Tests
