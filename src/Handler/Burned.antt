-- ===== src/Handler/Burned.antt =====
-- What pallets/chainbridge-handler charges for a token that leaves the chain.
use fusotao.Prelude.{ℕ, ◌+◌, ◌-◌, ◌^◌, ◌≤◌, ◌<◌, ◌≡◌, inl, inr, some, ◌∷◌, arith, u128_mod}
use fusotao.Support.Dispatch.{ok, Result-cases}
use fusotao.Support.XToken.{Bytes}
use fusotao.Support.Resource.{decode_resource_id}
use fusotao.Token.Decimals.{transform_decimals_to_standard, transform_decimals_to_external}
use fusotao.Token.Rounding.{to_standard-to_external}
use fusotao.Bridge.Types.{Event}
use fusotao.Bridge.Transfers.{transfer_fungible}
use fusotao.Handler.Types.{Config, State, calculate_bridging_fee}
use fusotao.Handler.Outgoing.{minus, do_burn_assets}
use fusotao.Handler.Locked.{transfer_fungible-announces}

module _ (c : Config) where
  open c use {asset}

  -- A token that leaves the chain: the bridge announces exactly what is burned of the sender's, the
  -- treasury gets the rest of the amount in 18 decimals, and that is the fee and less than one unit of
  -- the token more. The conditions: the resource names a token of at most 18 decimals, and the amount in 18
  -- decimals and twice the fee fit `u128`.
  pub do_burn_assets-announced :
      (who amount : ℕ) (r_id recipient : Bytes) (dest_id chain_id dex token decimals : ℕ)
      (contract : Bytes) (s s' : State c)
      → do_burn_assets c who amount r_id recipient dest_id s ≡ ok s'
      → decode_resource_id r_id ≡ some (chain_id, (dex, contract))
      → c.try_get_asset_id chain_id contract s.assets ≡ some token
      → c.token_external_decimals token s.assets ≡ ok decimals
      → decimals ≤ 18
      → let standard = transform_decimals_to_standard amount decimals in
        let fee = calculate_bridging_fee c dest_id token s in
        standard < u128_mod
        → fee + fee < u128_mod
        → (burned charged moved n : ℕ) × (a : asset.Store) × (asset.transfer_token who token charged
              c.treasury_account s.assets
            ≡ ok (moved, a))
          × (c.burn_from token who burned a ≡ ok s'.assets)
          × (s'.chain.events
              ≡ Event.fungible_transfer dest_id n r_id burned recipient ∷ s.chain.events)
          × (transform_decimals_to_standard burned decimals + charged ≡ standard)
          × (fee ≤ charged)
          × (charged < fee + 10 ^ (18 - decimals))
  unfolding do_burn_assets
  do_burn_assets-announced who amount r_id recipient dest_id chain_id dex token decimals contract s
        s' h named known digits low fits small =
      let standard = transform_decimals_to_standard amount decimals in
      let fee = calculate_bridging_fee c dest_id token s in
      let burned = transform_decimals_to_external (minus standard fee) decimals in
      let back = transform_decimals_to_standard burned decimals in
      let charged = minus standard back in
      let h' = rw (named, known, digits) at h in
      elim (Result-cases (asset.transfer_token who token charged c.treasury_account s.assets)) [
        | inl (e, failed) ↦ absurd (ground arith)
        | inr ((moved, a1), paid) ↦ elim (Result-cases (c.burn_from token who burned a1)) [
          | inl (e, failed) ↦ absurd (ground arith)
          | inr (a2, gone) ↦
              elim (Result-cases
                (transfer_fungible c.bridge dest_id r_id recipient burned s.chain)) [
                  | inl (e, failed) ↦ absurd (ground arith)
                  | inr (chain, announced) ↦
                      let (n, ev) =
                        transfer_fungible-announces c dest_id r_id recipient burned s.chain chain
                          announced in
                      let done : (s'.assets ≡ a2) × (s'.chain ≡ chain) = ground arith in
                      let above : fee + fee < standard = ground arith in
                      let left : minus standard fee + fee ≡ standard = omega (arith, above, fits) in
                      let (below, near) =
                        to_standard-to_external (minus standard fee) decimals low
                          (omega (arith, fits, left)) in
                      let sum : back + charged ≡ standard = omega (arith, below, left, fits) in
                      (
                        burned,
                        charged,
                        moved,
                        n,
                        a1,
                        paid,
                        rw done.0 gone,
                        rw done.1 ev,
                        sum,
                        omega (arith, sum, below, left),
                        omega (arith, sum, near, left),
                      )
                ]
        ]
      ]
