-- ===== src/Token.antt =====
-- The pallet pallets/token: fungible tokens with free and reserved balances beside the chain's own.
pub mod Types
pub mod Decimals
pub mod Accounts
pub mod Supply
pub mod Views
pub mod Invariant
pub mod Conservation
pub mod Minting
pub mod Listing
pub mod History
pub mod Effects
pub mod Rounding
pub mod Trait
pub mod Sample
mod Tests
