-- ===== src/Market.antt =====
-- pallets/market: brokers and their stakes, and the trading pairs of each dominator.
pub mod Types
pub mod Brokers
pub mod Pairs
pub mod History
pub mod Status
pub mod Stakes
mod Tests
