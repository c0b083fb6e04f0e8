-- ===== src/Verifier/Types.antt =====
-- The storage of pallets/verifier/src/lib.rs, and what its `Config` supplies. Seasons, block numbers,
-- accounts and tokens are numbers; a callback is a call known by its number.
use fusotao.Prelude.{ℕ, Bool, Option, none, some, List, ◌∷◌}
use fusotao.Support.Storage.{StorageMap}
use fusotao.Support.Dispatch.{Result, DispatchError, VerifierError}
use fusotao.Support.XToken.{Bytes}
use fusotao.Support.Asset.{Asset}

-- token, amount, block number, and the callback
pub data Receipt : Type 0 where
  authorize revoke : ℕ → ℕ → ℕ → Receipt
  revoke_with_callback : ℕ → ℕ → ℕ → ℕ → Receipt

pub record Dominator : Type 0 where
  pub name : Bytes
  pub staked : ℕ
  pub merkle_root : Bytes
  pub start_from : ℕ
  pub sequence : ℕ × ℕ
  pub status : ℕ

pub record Staking : Type 0 where
  pub from_season : ℕ
  pub amount : ℕ

abbrev pub default_staking : Staking
default_staking = record { from_season = 0; amount = 0 }

pub record Bonus : Type 0 where
  pub staked : ℕ
  pub profit : StorageMap ℕ ℕ

abbrev pub default_bonus : Bonus
default_bonus = record { staked = 0; profit = List.[] }

pub record DominatorSetting : Type 0 where
  pub beneficiary : Option ℕ
  pub x25519_pubkey : Bytes
  pub rpc_endpoint : Bytes

pub record Distribution : Type 0 where
  pub from_season : ℕ
  pub to_season : ℕ
  pub staking : ℕ

pub data Event : Type 0 where
  dominator_claimed : ℕ → Event
  token_hosted token_revoked : ℕ → ℕ → ℕ → ℕ → Event
  tao_staked tao_unstaked : ℕ → ℕ → ℕ → Event
  tao_unstake_unlock : ℕ → ℕ → Event
  dominator_online dominator_offline dominator_evicted dominator_inactive : ℕ → Event
  dominator_x25519_key_updated dominator_rpc_endpoint_updated : ℕ → Bytes → Event

-- The keys of `Reserves`: (reserve id, owner, token), and the dominator.
abbrev pub ReserveKey : Type 0
ReserveKey = (ℕ × (ℕ × ℕ)) × ℕ

-- The storage items, with the store of `T::Asset`; `events` has the newest first.
pub record State (Store : Type 0) : Type 0 where
  pub assets : Store
  pub receipts : StorageMap (ℕ × ℕ) Receipt
  pub dominators : StorageMap ℕ Dominator
  pub dominator_settings : StorageMap ℕ DominatorSetting
  pub reserves : StorageMap ReserveKey ℕ
  pub bonuses : StorageMap (ℕ × ℕ) Bonus
  pub stakings : StorageMap (ℕ × ℕ) Staking
  pub pending_unstakings : StorageMap (ℕ × ℕ) ℕ
  pub events : List Event

abbrev pub deposit_event : {Store : Type 0} → Event → State Store → State Store
deposit_event e s = record s { events = e ∷ s.events }

-- The reads of a map whose missing values count as zero.
abbrev pub or_zero : Option ℕ → ℕ
or_zero none = 0
or_zero (some n) = n

abbrev pub or_staking : Option Staking → Staking
or_staking none = default_staking
or_staking (some s) = s

abbrev pub or_bonus : Option Bonus → Bonus
or_bonus none = default_bonus
or_bonus (some b) = b

-- What the runtime supplies: the assets, the constants, the pallet's account, the `ascii` crate's
-- test, the account lookup, the codec of account ids, and the rounding of sp_arithmetic: `share a b p` is
-- `Perquintill::from_rational(a, b) * p`, `mul_ceil` is that
-- of `Permill`, and `bit_and` the operator `&`.
pub record Config : Type 1 where
  pub asset : Asset
  pub dominator_online_threshold : ℕ
  pub season_duration : ℕ
  pub dominator_check_grace_period : ℕ
  pub minimal_staking_amount : ℕ
  pub max_maker_fee : ℕ
  pub max_taker_fee : ℕ
  pub system_account : ℕ
  pub is_ascii : Bytes → Bool
  pub lookup : ℕ → Result ℕ
  pub decode_account : Bytes → Option ℕ
  pub share : ℕ → ℕ → ℕ → ℕ
  pub mul_ceil : ℕ → ℕ → ℕ
  pub bit_and : ℕ → ℕ → ℕ

abbrev pub fail : VerifierError → DispatchError
fail = DispatchError.verifier
