-- ===== src/Verifier/Dominators.antt =====
-- The life of a dominator, its settings, and the hook at the start of a block:
-- pallets/verifier/src/lib.rs.
use fusotao.Prelude.{
  ℕ, ◌+◌, ◌-◌, ◌/◌, ◌%◌, Bool, true, not, ◌&&◌, Option, none, some, List, [], ◌∷◌, ◌==◌, leb,
  if◌then◌else◌, length, nat_eq, pair_eq, bytes_eq, replicate, u32_mod,
}
use fusotao.Support.Storage.{StorageMap, get, insert, contains_key}
use fusotao.Support.Dispatch.{
  Result, ok, err, ◌>>=◌, ◌>>◌, ensure, ok_or, VerifierError, Origin, ensure_signed, ensure_root,
}
use fusotao.Support.XToken.{Bytes}
use fusotao.Support.Constants.{
  reserve_for_pending_unstake, dominator_registered, dominator_inactive, dominator_evicted,
}
use fusotao.Verifier.Types.{
  Dominator, DominatorSetting, Bonus, Event, State, deposit_event, Config, fail, or_bonus,
}
use fusotao.Verifier.Reserves.{unreserve}

-- `Dominators::<T>::iter().find(|d| &d.1.name == &identifier).is_none()`
unfoldable pub name_is_free : Bytes → StorageMap ℕ Dominator → Bool
name_is_free name [] = true
name_is_free name ((_, d) ∷ rest) = not (bytes_eq.beq d.name name) && name_is_free name rest

-- `MerkleHash::default()`
abbrev pub empty_root : Bytes
empty_root = replicate 32 0

-- `None` of a setting is created with the fields left empty.
abbrev pub or_setting : Option DominatorSetting → DominatorSetting
or_setting none = record { beneficiary = none; x25519_pubkey = []; rpc_endpoint = [] }
or_setting (some d) = d

-- Subtraction on `u32`
abbrev pub sub32 : ℕ → ℕ → ℕ
sub32 a b = (a + u32_mod - b) % u32_mod

module _ (c : Config) where
  open c use {asset}

  -- The dominator that `register` inserts.
  abbrev pub new_dominator : ℕ → Bytes → Dominator
  new_dominator now identifier =
      let register_at = now - now % c.dominator_check_grace_period in
      record {
        name = identifier;
        staked = 0;
        start_from = register_at;
        sequence = (0, now);
        merkle_root = empty_root;
        status = dominator_registered;
      }

  unfoldable pub register : ℕ → Origin → Bytes → State asset.Store → Result (State asset.Store)
  unfolding name_is_free
  register now origin identifier s = do
    dominator ← ensure_signed origin
    ensure (c.is_ascii identifier) (fail VerifierError.invalid_name)
    ensure (leb 2 (length identifier) && leb (length identifier) 32)
        (fail VerifierError.invalid_name)
    ensure (leb c.dominator_check_grace_period now) (fail VerifierError.too_early_to_register)
    ensure (not (contains_key dominator s.dominators)) (fail VerifierError.dominator_already_exists)
    ensure (name_is_free identifier s.dominators) (fail VerifierError.invalid_name)
    ok (
        deposit_event (Event.dominator_claimed dominator)
          (record s { dominators = insert dominator (new_dominator now identifier) s.dominators }))

  unfoldable pub evict : Origin → ℕ → State asset.Store → Result (State asset.Store)
  evict origin dominator_id s = do
    ensure_root origin
    dominator ← c.lookup dominator_id
    d ← ok_or (get dominator s.dominators) (fail VerifierError.dominator_not_found)
    ok (
        deposit_event (Event.dominator_evicted dominator) (record s {
          dominators = insert dominator (record d { status = dominator_evicted }) s.dominators;
        }))

  unfoldable pub launch : Origin → ℕ → State asset.Store → Result (State asset.Store)
  launch origin dominator_id s = do
    ensure_root origin
    dominator ← c.lookup dominator_id
    d ← ok_or (get dominator s.dominators) (fail VerifierError.dominator_not_found)
    ensure (d.status == dominator_registered) (fail VerifierError.dominator_status_invalid)
    ok (
        deposit_event (Event.dominator_inactive dominator) (record s {
          dominators = insert dominator (record d { status = dominator_inactive }) s.dominators;
        }))

  unfoldable pub dominator_set_pubkey :
      Origin → Bytes → State asset.Store → Result (State asset.Store)
  dominator_set_pubkey origin key s = do
    dominator ← ensure_signed origin
    ensure (contains_key dominator s.dominators) (fail VerifierError.dominator_not_found)
    let setting = or_setting (get dominator s.dominator_settings)
    ok (
        deposit_event (Event.dominator_x25519_key_updated dominator key) (record s {
          dominator_settings =
              insert dominator (record setting { x25519_pubkey = key }) s.dominator_settings;
        }))

  unfoldable pub dominator_set_rpc_endpoint :
      Origin → Bytes → State asset.Store → Result (State asset.Store)
  dominator_set_rpc_endpoint origin rpc_endpoint s = do
    dominator ← ensure_signed origin
    ensure (contains_key dominator s.dominators) (fail VerifierError.dominator_not_found)
    let setting = or_setting (get dominator s.dominator_settings)
    ok (
        deposit_event (Event.dominator_rpc_endpoint_updated dominator rpc_endpoint) (record s {
          dominator_settings =
              insert dominator (record setting { rpc_endpoint = rpc_endpoint })
                s.dominator_settings;
        }))

  -- `for (id, dominator) in Dominators::<T>::iter()` of `on_initialize`: the stake at the end of a
  -- season is kept in that season's bonus.
  unfoldable pub close_seasons :
      ℕ → StorageMap ℕ Dominator → StorageMap (ℕ × ℕ) Bonus → StorageMap (ℕ × ℕ) Bonus
  close_seasons now [] bonuses = bonuses
  close_seasons now ((id, d) ∷ rest) bonuses =
      let age = sub32 now d.start_from in
      let season = sub32 (age / c.season_duration) 1 in
      let b = or_bonus (get (id, season) bonuses) in
      close_seasons now rest (
        if not (now == d.start_from) && age % c.season_duration == 0
        then insert (id, season) (record b { staked = d.staked }) bonuses
        else bonuses)

  -- What `drain_prefix(&now)` leaves behind, and what it yields.
  unfoldable pub drained : ℕ → StorageMap (ℕ × ℕ) ℕ → StorageMap (ℕ × ℕ) ℕ
  drained now [] = []
  drained now (((at, who), amount) ∷ rest) =
      if at == now then drained now rest else ((at, who), amount) ∷ drained now rest

  unfoldable pub due : ℕ → StorageMap (ℕ × ℕ) ℕ → List (ℕ × ℕ)
  due now [] = []
  due now (((at, who), amount) ∷ rest) =
      if at == now then (who, amount) ∷ due now rest else due now rest

  -- One unlock: an `unreserve` that fails is logged and passed over.
  unfoldable pub unlock : ℕ → ℕ → State asset.Store → State asset.Store
  unlock staker amount s =
      elim (unreserve c reserve_for_pending_unstake staker asset.native_token_id amount
        c.system_account s) [
          | err e ↦ s
          | ok s' ↦ deposit_event (Event.tao_unstake_unlock staker amount) s'
        ]

  unfoldable pub unlock_all : List (ℕ × ℕ) → State asset.Store → State asset.Store
  unfolding unlock
  unlock_all [] s = s
  unlock_all ((staker, amount) ∷ rest) s = unlock_all rest (unlock staker amount s)

  unfoldable pub on_initialize : ℕ → State asset.Store → State asset.Store
  unfolding close_seasons drained due unlock_all
  on_initialize now s =
      if now % c.dominator_check_grace_period == 0
      then unlock_all (due now s.pending_unstakings) (record s {
        bonuses = close_seasons now s.dominators s.bonuses;
        pending_unstakings = drained now s.pending_unstakings;
      })
      else s
