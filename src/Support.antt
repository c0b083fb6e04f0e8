-- ===== src/Support.antt =====
-- What every pallet stands on: storage maps and dispatch results of FRAME, and the crate
-- pallets/fuso-support.
pub mod Storage
pub mod Dispatch
pub mod XToken
pub mod Asset
pub mod Constants
pub mod Bytes
pub mod Resource
pub mod Purse
