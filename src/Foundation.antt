-- ===== src/Foundation.antt =====
-- pallets/foundation: funds that are locked and released by a schedule.
pub mod Vault
pub mod Schedule
pub mod Released
pub mod Unlock
pub mod Release
pub mod Epochs
mod Tests
