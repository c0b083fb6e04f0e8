-- ===== src/Handler/Outgoing.antt =====
-- Transfers out of the chain: pallets/chainbridge-handler/src/lib.rs.
use fusotao.Prelude.{
  ℕ, ◌+◌, ◌-◌, ◌/◌, ◌%◌, true, false, ltb, leb, if◌then◌else◌, nat_eq, pair_eq, bytes_eq, u128_mod,
}
use fusotao.Support.Dispatch.{
  HandlerError, Result, ◌>>=◌, ◌>>◌, ensure, ok_or, Origin, ensure_signed, ok,
}
use fusotao.Support.XToken.{Bytes, contract}
use fusotao.Support.Resource.{decode_resource_id}
use fusotao.Token.Decimals.{transform_decimals_to_standard, transform_decimals_to_external}
use fusotao.Bridge.Admin.{chain_whitelisted}
use fusotao.Bridge.Transfers.{transfer_fungible}
use fusotao.Handler.Types.{Config, State, fail, is_native_resource, calculate_bridging_fee}

-- The plain `-` on `u128`, which wraps.
abbrev pub minus : ℕ → ℕ → ℕ
minus a b = (a + u128_mod - b) % u128_mod

module _ (c : Config) where
  open c use {asset}

  -- The limit on what the bridge may hold of the native token.
  abbrev pub ensure_limit : ℕ → State c → Result (Unit {0})
  ensure_limit amount s =
      if s.native_check
      then ensure
          (leb
            ((asset.free_balance asset.native_token_id c.bridge.account_id s.assets + amount)
              % u128_mod)
            (c.native_token_max_value / 3))
          (fail HandlerError.over_transfer_limit)
      else ok tt

  unfoldable pub do_lock : ℕ → ℕ → Bytes → Bytes → ℕ → State c → Result (State c)
  do_lock sender amount r_id recipient dest_id s = do
    let native = asset.native_token_id
    ensure_limit amount s
    let fee = calculate_bridging_fee c dest_id native s
    ensure (ltb ((fee + fee) % u128_mod) amount) (fail HandlerError.less_than_bridging_threshold)
    (paid, a1) ← asset.transfer_token sender native fee c.treasury_account s.assets
    (locked, a2) ← asset.transfer_token sender native (minus amount fee) c.bridge.account_id a1
    chain ← transfer_fungible c.bridge dest_id r_id recipient (minus amount fee) s.chain
    ok (record s { chain = chain; assets = a2 })

  unfoldable pub do_burn_assets : ℕ → ℕ → Bytes → Bytes → ℕ → State c → Result (State c)
  do_burn_assets who amount r_id recipient dest_id s = do
    (chain_id, (_, contract)) ←
        ok_or (decode_resource_id r_id) (fail HandlerError.invalid_resource_id)
    token_id ←
        ok_or (c.try_get_asset_id chain_id contract s.assets)
          (fail HandlerError.invalid_resource_id)
    decimals ← c.token_external_decimals token_id s.assets
    let standard = transform_decimals_to_standard amount decimals
    let fee = calculate_bridging_fee c dest_id token_id s
    ensure (ltb ((fee + fee) % u128_mod) standard) (fail HandlerError.less_than_bridging_threshold)
    let external = transform_decimals_to_external (minus standard fee) decimals
    let actual_fee = minus standard (transform_decimals_to_standard external decimals)
    (paid, a1) ← asset.transfer_token who token_id actual_fee c.treasury_account s.assets
    a2 ← c.burn_from token_id who external a1
    chain ← transfer_fungible c.bridge dest_id r_id recipient external s.chain
    ok (record s { chain = chain; assets = a2 })

  unfoldable pub transfer_out : Origin → ℕ → Bytes → Bytes → ℕ → State c → Result (State c)
  unfolding do_lock do_burn_assets is_native_resource
  transfer_out origin amount r_id recipient dest_id s = do
    source ← ensure_signed origin
    ensure (chain_whitelisted c.bridge dest_id s.chain) (fail HandlerError.invalid_transfer)
    elim (is_native_resource c r_id) [
      | true ↦ do_lock source amount r_id recipient dest_id s
      | false ↦ do_burn_assets source amount r_id recipient dest_id s
    ]
