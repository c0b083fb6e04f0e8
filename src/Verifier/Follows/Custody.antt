-- ===== src/Verifier/Follows/Custody.antt =====
-- The operations of `Custody` move `Reserves` and the reserved balances together.
use fusotao.Prelude.{
  ℕ, ◌+◌, ◌≤◌, ◌≡◌, ◌≢◌, ◌==◌, ltb, arith, Bool-cases, Option-cases, inl, inr, Option, some, none,
  nat_eq, pair_eq,
}
use fusotao.Support.Storage.{get, insert, remove, sum_by-put, sum_by-put-put, weight-le-sum_by}
use fusotao.Support.Dispatch.{ok, Result-cases}
use fusotao.Support.Asset.{ReserveLaws, on_account}
use fusotao.Support.Constants.{
  reserve_for_authorizing, reserve_for_authorizing_stash, dominator_evicted,
}
use fusotao.Verifier.Types.{ReserveKey, State, Config, or_zero}
use fusotao.Verifier.Reserves.{reserve, unreserve, clear, exchange}
use fusotao.Verifier.Custody.{
  authorize_to, merge_stash, revoke_evicted, revoke_receipt, revoked_amount, revoke_from,
}
use fusotao.Verifier.Follows.{
  backs, set_aside, Follows, Follows-trans, aside-Follows, reserve-Follows, unreserve-Follows,
}

module _ (c : Config) (laws : ReserveLaws c.asset) where
  open c use {asset}
  open laws use {IsValid}

  pub authorize_to-Follows :
      (now who dex token amount : ℕ) (s s' : State asset.Store)
      → authorize_to c now who dex token amount s ≡ ok s'
      → IsValid s.assets
      → Follows c laws s s'
  unfolding authorize_to
  authorize_to-Follows now who dex token amount s s' h v =
      elim (Option-cases (get dex s.dominators)) [
        | inl missing ↦ ground arith
        | inr (dominator, found) ↦
            elim (Result-cases (reserve c reserve_for_authorizing_stash who token amount dex s)) [
              | inl (e, failed) ↦ ground arith
              | inr (s₁, held) ↦
                  let f =
                    reserve-Follows c laws reserve_for_authorizing_stash who token amount dex s s₁
                      held v in
                  Follows-trans c laws s s₁ s' f
                    (aside-Follows c laws s₁ s' (ground arith) (ground arith) f.valid)
            ]
      ]

  pub merge_stash-Follows :
      (who token dex : ℕ) (s s' : State asset.Store)
      → merge_stash c who token dex s ≡ ok s'
      → IsValid s.assets
      → Follows c laws s s'
  unfolding merge_stash
  merge_stash-Follows who token dex s s' h v =
      let stash : ReserveKey = ((reserve_for_authorizing_stash, (who, token)), dex) in
      let confirmed : ReserveKey = ((reserve_for_authorizing, (who, token)), dex) in
      let av = or_zero (get stash s.reserves) in
      elim (Bool-cases (ltb 0 av)) [
        | inr empty ↦
            let e : s' ≡ record s { reserves = remove stash s.reserves } = ground arith in
            rw e (record {
              valid = v;
              moved = λ t w. ground (arith, sum_by-put (backs t w) stash none s.reserves);
            })
        | inl waiting ↦
            let grown = or_zero (get confirmed s.reserves) + av in
            let e : s' ≡ record s { reserves = remove stash (insert confirmed grown s.reserves) } =
              ground arith in
            let apart : confirmed ≢ stash = λ p. ground arith in
            rw e (record {
              valid = v;
              moved = λ t w. ground (
                arith,
                sum_by-put-put (backs t w) stash confirmed none (some grown) s.reserves apart,
              );
            })
      ]

  pub revoke_evicted-Follows :
      (who dex token amount : ℕ) (s s' : State asset.Store)
      → revoke_evicted c who dex token amount s ≡ ok s'
      → IsValid s.assets
      → Follows c laws s s'
  unfolding revoke_evicted
  revoke_evicted-Follows who dex token amount s s' h v =
      elim (Result-cases (merge_stash c who token dex s)) [
        | inl (e, failed) ↦ ground arith
        | inr (s₁, merged) ↦
            elim (Result-cases (unreserve c reserve_for_authorizing who token amount dex s₁)) [
              | inl (e, failed) ↦ ground arith
              | inr (s₂, freed) ↦
                  let f = merge_stash-Follows who token dex s s₁ merged v in
                  let g =
                    unreserve-Follows c laws reserve_for_authorizing who token amount dex s₁ s₂
                      freed f.valid in
                  Follows-trans c laws s s₁ s' f (
                    Follows-trans c laws s₁ s₂ s' g
                      (aside-Follows c laws s₂ s' (ground arith) (ground arith) g.valid))
            ]
      ]

  pub revoke_from-Follows :
      (now who dex token : ℕ) (amount callback : Option ℕ) (s s' : State asset.Store)
      → revoke_from c now who dex token amount callback s ≡ ok s'
      → IsValid s.assets
      → Follows c laws s s'
  unfolding revoke_from revoke_receipt
  revoke_from-Follows now who dex token maybe_amount callback s s' h v =
      let amount = revoked_amount c maybe_amount who token dex s in
      elim (Bool-cases (amount == 0)) [
        | inl none_left ↦ aside-Follows c laws s s' (ground arith) (ground arith) v
        | inr some_left ↦ elim (Option-cases (get dex s.dominators)) [
          | inl missing ↦ ground arith
          | inr (dominator, found) ↦ elim (Bool-cases (dominator.status == dominator_evicted)) [
            | inr receipted ↦ aside-Follows c laws s s' (ground arith) (ground arith) v
            | inl evicted ↦ elim (Result-cases (revoke_evicted c who dex token amount s)) [
              | inl (e, failed) ↦ ground arith
              | inr (s₁, done) ↦
                  let f = revoke_evicted-Follows who dex token amount s s₁ done v in
                  Follows-trans c laws s s₁ s' f
                    (aside-Follows c laws s₁ s' (ground arith) (ground arith) f.valid)
            ]
          ]
        ]
      ]

  -- From a valid store, and where the reserved balance of the account covers what is set aside for
  -- it, `clear` leaves a valid store, and moves every account's reserved balance in every token by
  -- just as much as what is set aside for it.
  pub clear-Follows :
      (who dex token balance : ℕ) (s s' : State asset.Store)
      → clear c who dex token balance s ≡ ok s'
      → IsValid s.assets
      → set_aside token who s ≤ asset.reserved_balance token who s.assets
      → Follows c laws s s'
  unfolding clear
  clear-Follows who dex token balance s s' h v covered =
      let key : ReserveKey = ((reserve_for_authorizing, (who, token)), dex) in
      let held = or_zero (get key s.reserves) in
      elim (Result-cases
        (asset.try_mutate_account token who (on_account (exchange c held balance)) s.assets)) [
          | inl (e, failed) ↦ ground arith
          | inr (assets, paid) ↦
              let (b, done) =
                laws.mutate-eq-ok token who (exchange c held balance) s.assets assets paid in
              let bound = weight-le-sum_by (backs token who) key s.reserves in
              let e : s' ≡ record s { assets = assets; reserves = insert key balance s.reserves } =
                ground arith in
              let enough : held ≤ asset.reserved_balance token who s.assets = ground arith in
              let left : b.reserved + held ≡ asset.reserved_balance token who s.assets + balance =
                ground arith in
              rw e (record {
                valid =
                    laws.mutate-IsValid token who (exchange c held balance) s.assets assets paid v;
                moved = λ t w. ground (
                  arith,
                  laws.reserved-mutate token who t w (exchange c held balance) b s.assets assets
                      done paid v,
                  sum_by-put (backs t w) key (some balance) s.reserves,
                );
              })
        ]
