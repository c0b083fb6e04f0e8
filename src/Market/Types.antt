-- ===== src/Market/Types.antt =====
-- The storage of pallets/market/src/lib.rs, and what its `Config` supplies.
use fusotao.Prelude.{ℕ, Bool, Option, List, ◌∷◌, nat_eq, pair_eq, bytes_eq}
use fusotao.Support.Storage.{StorageMap}
use fusotao.Support.Dispatch.{MarketError, DispatchError}
use fusotao.Support.XToken.{Bytes}
use fusotao.Support.Asset.{Asset}

pub data MarketStatus : Type 0 where
  registered open_ closed : MarketStatus

pub record Broker : Type 0 where
  pub beneficiary : ℕ
  pub staked : ℕ
  pub register_at : ℕ
  pub rpc_endpoint : Bytes
  pub name : Bytes

pub record Market : Type 0 where
  pub min_base : ℕ
  pub base_scale : ℕ
  pub quote_scale : ℕ
  pub status : MarketStatus
  pub trading_rewards : Bool
  pub liquidity_rewards : Bool
  pub unavailable_after : Option ℕ

pub data Event : Type 0 where
  broker_registered : ℕ → ℕ → Event
  broker_deregistered : ℕ → Event
  market_registered market_opened : ℕ → ℕ → ℕ → ℕ → ℕ → ℕ → Event
  market_closed : ℕ → ℕ → ℕ → Event

-- The keys of `Markets`: the dominator, and the two tokens.
abbrev pub Pair : Type 0
Pair = ℕ × (ℕ × ℕ)

-- The storage items; `events` has the newest first.
pub record State (Store : Type 0) : Type 0 where
  pub brokers : StorageMap ℕ Broker
  pub markets : StorageMap Pair Market
  pub events : List Event
  pub assets : Store

abbrev pub deposit_event : {Store : Type 0} → Event → State Store → State Store
deposit_event e s = record s { events = e ∷ s.events }

-- What the runtime supplies, and the account that `PALLET_ID` stands for.
pub record Config : Type 1 where
  pub asset : Asset
  pub broker_staking_threshold : ℕ
  pub market_close_grace_period : ℕ
  pub system_account : ℕ

abbrev pub fail : MarketError → DispatchError
fail = DispatchError.market
