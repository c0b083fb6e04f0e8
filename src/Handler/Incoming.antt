-- ===== src/Handler/Incoming.antt =====
-- Transfers that the bridge's account carries out: pallets/chainbridge-handler/src/lib.rs.
use fusotao.Prelude.{
  ℕ, true, false, Option, none, some, ◌==◌, if◌then◌else◌, nat_eq, pair_eq, bytes_eq,
}
use fusotao.Support.Storage.{get}
use fusotao.Support.Dispatch.{HandlerError, DispatchError, Result, ◌>>=◌, ok_or, Origin, ok, err}
use fusotao.Support.XToken.{Bytes, contract}
use fusotao.Support.Resource.{decode_resource_id}
use fusotao.Bridge.Transfers.{ensure_bridge}
use fusotao.Handler.Types.{Config, State, fail, is_native_resource}

-- The state that is left where an error is only logged.
abbrev pub or_same : {S : Type 0} → S → Result S → S
or_same s (ok s') = s'
or_same s (err e) = s

module _ (c : Config) where
  open c use {asset}

  unfoldable pub do_unlock : ℕ → ℕ → ℕ → asset.Store → Result asset.Store
  do_unlock sender to amount a = do
    (moved, a') ← asset.transfer_token sender asset.native_token_id amount to a
    ok a'

  unfoldable pub do_mint_assets : ℕ → ℕ → Bytes → asset.Store → Result asset.Store
  do_mint_assets who amount r_id a = do
    (chain_id, (_, contract)) ←
        ok_or (decode_resource_id r_id) (fail HandlerError.invalid_resource_id)
    token_id ←
        ok_or (c.try_get_asset_id chain_id contract a) (fail HandlerError.invalid_resource_id)
    c.mint_into token_id who amount a

  -- The funds go on to the dominator that the resource names, if there is one.
  unfoldable pub forward_native : ℕ → ℕ → Option ℕ → asset.Store → Result asset.Store
  forward_native to amount none a = ok a
  forward_native to amount (some dominator) a = do
    b ←
        ok_or (c.to_asset_balance amount asset.native_token_id a)
          (fail HandlerError.invalid_resource_id)
    ok (or_same a (c.authorize_to to dominator asset.native_token_id b a))

  unfoldable pub forward_token : ℕ → ℕ → ℕ → Bytes → Option ℕ → asset.Store → Result asset.Store
  forward_token to amount chain_id contract none a = ok a
  forward_token to amount chain_id contract (some dominator) a = do
    token ← ok_or (c.try_get_asset_id chain_id contract a) (fail HandlerError.invalid_resource_id)
    b ← ok_or (c.to_asset_balance amount token a) (fail HandlerError.invalid_resource_id)
    ok (or_same a (c.authorize_to to dominator token b a))

  -- An account without a transaction yet is given something to pay for one.
  abbrev pub donate : ℕ → asset.Store → asset.Store
  donate to a =
      if c.account_nonce to a == 0
      then or_same a (
          asset.transfer_token c.donor_account asset.native_token_id c.donation_for_agent to a
          >>= λ r. ok r.1)
      else a

  unfoldable pub arrive : ℕ → ℕ → ℕ → Bytes → State c → Result asset.Store
  unfolding do_unlock do_mint_assets forward_native forward_token is_native_resource
  arrive source to amount r_id s = elim (is_native_resource c r_id) [
    | true ↦ do
      a1 ← do_unlock source to amount s.assets
      (_, (associated, _)) ← ok_or (decode_resource_id r_id) (fail HandlerError.invalid_resource_id)
      forward_native to amount (get associated s.associated_dominator) a1
    | false ↦ do
      a1 ← do_mint_assets to amount r_id s.assets
      (chain_id, (associated, contract)) ←
          ok_or (decode_resource_id r_id) (fail HandlerError.invalid_resource_id)
      forward_token to amount chain_id contract (get associated s.associated_dominator) a1
  ]

  unfoldable pub transfer_in : Origin → ℕ → ℕ → Bytes → State c → Result (State c)
  unfolding arrive
  transfer_in origin to amount r_id s = do
    source ← ok_or (ensure_bridge c.bridge origin) DispatchError.bad_origin
    a ← arrive source to amount r_id s
    ok (record s { assets = donate to a })

  unfoldable pub remark : Origin → State c → Result (State c)
  remark origin s = do _ ← ok_or (ensure_bridge c.bridge origin) DispatchError.bad_origin; ok s
