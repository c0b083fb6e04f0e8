-- ===== src/Token/Types.antt =====
-- The state of pallets/token/src/lib.rs, and what its `Config` supplies.
use fusotao.Prelude.{ℕ, Bool, Option, none, some, List, ◌∷◌, ◌&&◌, ◌==◌, if◌then◌else◌}
use fusotao.Support.Storage.{StorageMap}
use fusotao.Support.Asset.{Account, BalanceStatus}
use fusotao.Support.Dispatch.{Result, Origin}
use fusotao.Support.XToken.{Bytes, XToken}

abbrev pub default_account : Account
default_account = record { free = 0; reserved = 0 }

abbrev pub or_default : Option Account → Account
or_default none = default_account
or_default (some a) = a

-- An entry whose two balances are zero is dropped.
abbrev pub unless_dead : Account → Option Account
unless_dead a = if a.free == 0 && a.reserved == 0 then none else some a

pub data Event : Type 0 where
  token_issued : ℕ → Bytes → Event
  token_transfered : ℕ → ℕ → ℕ → ℕ → Event
  token_reserved token_unreserved token_minted token_burned : ℕ → ℕ → ℕ → Event
  token_repatriated : ℕ → ℕ → ℕ → ℕ → Event

-- The storage items. `native` is the store of pallet_balances; `events` has the newest first.
pub record State (Native : Type 0) : Type 0 where
  pub native : Native
  pub balances : StorageMap (ℕ × ℕ) Account
  pub tokens : StorageMap ℕ XToken
  pub next_token_id : ℕ
  pub token_by_name : StorageMap Bytes ℕ
  pub token_by_contract : StorageMap (ℕ × Bytes) ℕ
  pub events : List Event

abbrev pub deposit_event : {Native : Type 0} → Event → State Native → State Native
deposit_event e s = record s { events = e ∷ s.events }

-- What the runtime supplies: the pallet's constants, its origins, the `ascii` crate's test, and
-- pallet_balances, whose operations run on a store of their own. `set_account` is the write at the
-- end of `mutate_account`, `set_issuance` that of `TotalIssuance`.
pub record Config : Type 1 where
  pub native_token_id : ℕ
  pub near_chain_id : ℕ
  pub eth_chain_id : ℕ
  pub bnb_chain_id : ℕ
  pub native_chain_id : ℕ
  pub polygon_chain_id : ℕ
  pub burn_ta_when_issue : ℕ
  pub is_admin : Origin → Bool
  pub lookup : ℕ → Result ℕ
  pub is_ascii : Bytes → Bool
  pub Native : Type 0
  pub free_balance : ℕ → Native → ℕ
  pub reserved_balance : ℕ → Native → ℕ
  pub total_issuance : Native → ℕ
  pub set_issuance : ℕ → Native → Native
  pub set_account : ℕ → Account → Native → Result Native
  pub transfer : ℕ → ℕ → ℕ → Native → Result Native
  pub burn_from : ℕ → ℕ → Native → Result Native
  pub can_reserve : ℕ → ℕ → Native → Bool
  pub reserve : ℕ → ℕ → Native → Result Native
  pub unreserve : ℕ → ℕ → Native → Native
  pub repatriate_reserved : ℕ → ℕ → ℕ → BalanceStatus → Native → Result Native
