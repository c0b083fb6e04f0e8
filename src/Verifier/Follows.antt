-- ===== src/Verifier/Follows.antt =====
-- `Reserves` and the reserved balances of the assets move together.
pub mod Custody
pub mod Staking
use fusotao.Prelude.{
  ℕ, ◌+◌, ◌-◌, ◌≤◌, ◌≡◌, ◌≢◌, refl, sym, ap, Bool, true, false, ◌&&◌, ◌==◌, leb, ltb, if◌then◌else◌,
  arith, Bool-cases, Option-cases, inl, inr, Option, some, none, nat_eq, pair_eq, checked_add,
  checked_sub,
}
use fusotao.Support.Storage.{get, put, insert, remove, sum_by, weight, sum_by-put, weight-le-sum_by}
use fusotao.Support.Dispatch.{Result, ok, err, ◌>>=◌, Result-cases}
use fusotao.Support.Asset.{Account, Asset, ReserveLaws, on_account, account, only_at}
use fusotao.Support.Constants.{reserve_for_authorizing}
use fusotao.Verifier.Types.{ReserveKey, State, Config, or_zero}
use fusotao.Verifier.Reserves.{reserved, reserve, unreserve, clear, exchange}

-- What an entry of `Reserves` sets aside of a token for an owner.
abbrev pub backs : ℕ → ℕ → ReserveKey → ℕ → ℕ
backs token owner key v = if key.0.1.1 == token && key.0.1.0 == owner then v else 0

-- What all entries together set aside.
abbrev pub set_aside : {Store : Type 0} → ℕ → ℕ → State Store → ℕ
set_aside token owner s = sum_by (backs token owner) s.reserves

module _ (c : Config) (laws : ReserveLaws c.asset) where
  open c use {asset}
  open laws use {IsValid}

  -- From `s` to `s'` the reserved balances have moved as what is set aside has.
  pub record Follows (s s' : State asset.Store) : Type 0 where
    pub valid : IsValid s'.assets
    pub moved :
        (t w : ℕ)
        → set_aside t w s' + asset.reserved_balance t w s.assets
          ≡ set_aside t w s + asset.reserved_balance t w s'.assets

  pub Follows-trans : (s s₁ s₂ : State asset.Store) → Follows s s₁ → Follows s₁ s₂ → Follows s s₂
  Follows-trans s s₁ s₂ f g = record {
    valid = g.valid;
    moved = λ t w. omega (arith, f.moved t w, g.moved t w);
  }

  -- Only the assets and `Reserves` count.
  pub aside-Follows :
      (s s' : State asset.Store)
      → s'.assets ≡ s.assets
      → s'.reserves ≡ s.reserves
      → IsValid s.assets
      → Follows s s'
  aside-Follows s s' a r v = record { valid = rw a v; moved = λ t w. rw (a, r) refl }

  pub reserve-Follows :
      (id who token value to : ℕ) (s s' : State asset.Store)
      → reserve c id who token value to s ≡ ok s'
      → IsValid s.assets
      → Follows s s'
  unfolding reserve
  reserve-Follows id who token value to s s' h v = elim (Bool-cases (value == 0)) [
    | inl zero ↦ aside-Follows s s' (ground arith) (ground arith) v
    | inr nonzero ↦ elim (Result-cases (asset.reserve token who value s.assets)) [
      | inl (e, failed) ↦ ground arith
      | inr (assets, paid) ↦
          let key : ReserveKey = ((id, (who, token)), to) in
          let grown = or_zero (get key s.reserves) + value in
          let e : s' ≡ record s { assets = assets; reserves = insert key grown s.reserves } =
            ground arith in
          rw e (record {
            valid = laws.reserve-IsValid token who value s.assets assets paid v;
            moved = λ t w. ground (
              arith,
              laws.reserved-reserve token who value t w s.assets assets paid v,
              sum_by-put (backs t w) key (some grown) s.reserves,
            );
          })
    ]
  ]

  pub unreserve-Follows :
      (id who token value from : ℕ) (s s' : State asset.Store)
      → unreserve c id who token value from s ≡ ok s'
      → IsValid s.assets
      → Follows s s'
  unfolding unreserve
  unreserve-Follows id who token value from s s' h v = elim (Bool-cases (value == 0)) [
    | inl zero ↦ aside-Follows s s' (ground arith) (ground arith) v
    | inr nonzero ↦ elim (Result-cases (asset.unreserve token who value s.assets)) [
      | inl (e, failed) ↦ ground arith
      | inr (assets, freed) ↦
          let key : ReserveKey = ((id, (who, token)), from) in
          let held = or_zero (get key s.reserves) in
          let kept = if ltb 0 (held - value) then some (held - value) else none in
          let covered : value ≤ held = ground arith in
          let e : s' ≡ record s { assets = assets; reserves = put key kept s.reserves } =
            ground arith in
          rw e (record {
            valid = laws.unreserve-IsValid token who value s.assets assets freed v;
            moved = λ t w. ground (
              arith,
              laws.reserved-unreserve token who value t w s.assets assets freed v,
              sum_by-put (backs t w) key kept s.reserves,
            );
          })
    ]
  ]
