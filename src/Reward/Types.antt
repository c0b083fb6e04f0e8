-- ===== src/Reward/Types.antt =====
-- The storage of pallets/reward/src/lib.rs, and what its `Config` supplies.
use fusotao.Prelude.{ℕ, ◌-◌, ◌%◌, Bool, Option, none, some, List, ltb, nat_eq, pair_eq, bytes_eq}
use fusotao.Support.Storage.{StorageMap}
use fusotao.Support.Dispatch.{RewardError, DispatchError, Result, ◌>>◌, ensure, Origin, ok}
use fusotao.Support.Asset.{Asset}

pub record Reward : Type 0 where
  pub confirmed : ℕ
  pub pending_vol : ℕ
  pub last_modify : ℕ

-- A `ValueQuery` map reads `Reward::default()` where it has no entry, and a volume reads zero.
abbrev pub or_default : Option Reward → Reward
or_default none = record { confirmed = 0; pending_vol = 0; last_modify = 0 }
or_default (some r) = r

abbrev pub or_zero : Option ℕ → ℕ
or_zero none = 0
or_zero (some v) = v

pub record LiquidityProvider : Type 0 where
  pub volume : ℕ
  pub start_from : ℕ

pub data Event : Type 0 where
  reward_claimed : ℕ → ℕ → Event
  era_rewards_updated : ℕ → Event

-- A pair of tokens.
abbrev pub Symbol : Type 0
Symbol = ℕ × ℕ

-- The storage items; `events` has the newest first.
pub record State (Store : Type 0) : Type 0 where
  pub liquidity_pool : StorageMap (ℕ × Symbol) LiquidityProvider
  pub era_rewards : ℕ
  pub rewards : StorageMap ℕ Reward
  pub volumes : StorageMap ℕ ℕ
  pub taken_liquidity : StorageMap ℕ ℕ
  pub marketing_rewards : StorageMap ℕ Reward
  pub trading_volumes : StorageMap ℕ ℕ
  pub events : List Event
  pub assets : Store

-- What the runtime supplies. A `Perquintill` of sp_arithmetic is the number of its parts; its
-- `from_rational` and its product with a `u128` are the crate's.
pub record Config : Type 1 where
  pub asset : Asset
  pub era_duration : ℕ
  pub time_coefficient_zoom : ℕ
  pub reward_terminate_at : ℕ
  pub is_treasury : Origin → Bool
  pub from_rational : ℕ → ℕ → ℕ
  pub of_perquintill : ℕ → ℕ → ℕ

abbrev pub fail : RewardError → DispatchError
fail = DispatchError.reward

module _ (c : Config) where
  -- `at - at % Self::era_duration()`; the remainder by zero panics.
  abbrev pub begin_of_era : ℕ → Result ℕ
  begin_of_era at =
      ensure (ltb 0 c.era_duration) DispatchError.panicked >> ok (at - at % c.era_duration)
