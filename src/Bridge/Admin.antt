-- ===== src/Bridge/Admin.antt =====
-- The admin's dispatchables of pallets/chainbridge/src/lib.rs, and the methods behind them.
use fusotao.Prelude.{
  ℕ, ◌+◌, ◌-◌, ◌%◌, Bool, true, false, not, Option, none, some, ◌==◌, ltb, if◌then◌else◌, nat_eq,
  bytes_eq, u32_mod,
}
use fusotao.Support.Storage.{get, insert, remove, contains_key}
use fusotao.Support.Dispatch.{
  Result, ok, ◌>>=◌, ◌>>◌, ensure, ok_or, BridgeError, DispatchError, Origin,
}
use fusotao.Support.XToken.{Bytes}
use fusotao.Support.Resource.{decode_resource_id}
use fusotao.Bridge.Types.{State, Config, Event, deposit_event, fail}

-- A relayer that is not in the map is none.
abbrev pub or_false : Option Bool → Bool
or_false none = false
or_false (some b) = b

module _ (c : Config) where
  open c use {Rest}

  abbrev pub ensure_admin : Origin → Result (Unit {0})
  ensure_admin origin = ensure (c.is_admin origin) DispatchError.bad_origin

  abbrev pub is_relayer : ℕ → State Rest → Bool
  is_relayer who s = or_false (get who s.relayers)

  abbrev pub resource_exists : Bytes → State Rest → Bool
  resource_exists id s = contains_key id s.resources

  abbrev pub chain_whitelisted : ℕ → State Rest → Bool
  chain_whitelisted id s = contains_key id s.chain_nonces

  unfoldable pub set_relayer_threshold : ℕ → State Rest → Result (State Rest)
  set_relayer_threshold threshold s = do
    ensure (ltb 0 threshold) (fail BridgeError.invalid_threshold)
    ok (
        deposit_event (Event.relayer_threshold_changed threshold)
          (record s { relayer_threshold = threshold }))

  unfoldable pub whitelist : ℕ → State Rest → Result (State Rest)
  whitelist id s = do
    ensure (not (id == c.chain_id)) (fail BridgeError.invalid_chain_id)
    ensure (not (chain_whitelisted id s)) (fail BridgeError.chain_already_whitelisted)
    ok (
        deposit_event (Event.chain_whitelisted id)
          (record s { chain_nonces = insert id 0 s.chain_nonces }))

  unfoldable pub register_relayer : ℕ → State Rest → Result (State Rest)
  register_relayer relayer s = do
    ensure (not (is_relayer relayer s)) (fail BridgeError.relayer_already_exists)
    ok (
        deposit_event (Event.relayer_added relayer) (record s {
          relayers = insert relayer true s.relayers;
          relayer_count = (s.relayer_count + 1) % u32_mod;
        }))

  unfoldable pub unregister_relayer : ℕ → State Rest → Result (State Rest)
  unregister_relayer relayer s = do
    ensure (is_relayer relayer s) (fail BridgeError.relayer_invalid)
    ok (
        deposit_event (Event.relayer_removed relayer) (record s {
          relayers = remove relayer s.relayers;
          relayer_count = (s.relayer_count + u32_mod - 1) % u32_mod;
        }))

  -- The dispatchables.
  unfoldable pub set_threshold : Origin → ℕ → State Rest → Result (State Rest)
  unfolding set_relayer_threshold
  set_threshold origin threshold s = do ensure_admin origin; set_relayer_threshold threshold s

  -- `set_resource` behind the check of the origin: another resource than the native one must name a
  -- token.
  abbrev pub ensure_resource : Bytes → State Rest → Result (Unit {0})
  ensure_resource id s = if bytes_eq.beq id c.native_resource_id then ok tt else (do
    (chain, (_, contract)) ← ok_or (decode_resource_id id) (fail BridgeError.invalid_resource_id)
    _ ←
        ok_or (c.try_get_asset_id chain contract s.rest)
          (fail BridgeError.resource_id_not_map_to_token)
    ok tt)

  abbrev pub register_resource : Bytes → Bytes → State Rest → State Rest
  register_resource id method s = record s { resources = insert id method s.resources }

  abbrev pub unregister_resource : Bytes → State Rest → State Rest
  unregister_resource id s = record s { resources = remove id s.resources }

  unfoldable pub set_resource : Origin → Bytes → Bytes → State Rest → Result (State Rest)
  set_resource origin id method s = do
    ensure_admin origin
    ensure_resource id s
    ok (register_resource id method s)

  unfoldable pub remove_resource : Origin → Bytes → State Rest → Result (State Rest)
  remove_resource origin id s = do ensure_admin origin; ok (unregister_resource id s)

  unfoldable pub whitelist_chain : Origin → ℕ → State Rest → Result (State Rest)
  unfolding whitelist
  whitelist_chain origin id s = do ensure_admin origin; whitelist id s

  unfoldable pub add_relayer : Origin → ℕ → State Rest → Result (State Rest)
  unfolding register_relayer
  add_relayer origin v s = do ensure_admin origin; register_relayer v s

  unfoldable pub remove_relayer : Origin → ℕ → State Rest → Result (State Rest)
  unfolding unregister_relayer
  remove_relayer origin v s = do ensure_admin origin; unregister_relayer v s
