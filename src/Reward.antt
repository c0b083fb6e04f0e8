-- ===== src/Reward.antt =====
-- pallets/reward: what traders earn in each era for the liquidity they provide.
pub mod Types
pub mod Claims
pub mod Liquidity
pub mod History
pub mod Backed
pub mod Trading
pub mod Eras
pub mod Repeat
mod Tests
