-- ===== src/Token/Minting.antt =====
-- Minting, burning and issuing keep the books of pallets/token.
use fusotao.Prelude.{
  ℕ, ◌+◌, ◌-◌, ◌≤◌, ◌<◌, ◌≡◌, ◌≢◌, ap, Bool-cases, Option-cases, inl, inr, Option, some, arith,
  ◌==◌, u128_mod, nat_eq, pair_eq, bytes_eq,
}
use fusotao.Support.Storage.{get, get-insert, insert, put, weight, sum_by-put, put-IsMap}
use fusotao.Support.Dispatch.{ok, Result-cases}
use fusotao.Support.XToken.{XToken, nep141, erc20, bep20, polygon, fnd10}
use fusotao.Support.Asset.{Account}
use fusotao.Token.Types.{State, Event, Config, unless_dead, deposit_event}
use fusotao.Token.Supply.{total, grow_total, shrink_total, do_mint, do_burn}
use fusotao.Token.Invariant.{held, IsBacked, IsBarren}
use fusotao.Token.Conservation.{entry}

-- Where a mint goes through, the total grows by the amount minted.
grow_total-total :
    (amount n : ℕ) (info info' : XToken)
    → IsBarren (some info)
    → grow_total amount info ≡ ok (info', n)
    → n ≢ 0
    → (total (some info') ≡ total (some info) + n)
      × (total (some info') < u128_mod)
      × IsBarren (some info')
unfolding grow_total
grow_total-total amount n (nep141 a b t s d) info' h e nz = ground arith
grow_total-total amount n (erc20 a b t s d) info' h e nz = ground arith
grow_total-total amount n (polygon a b t s d) info' h e nz = ground arith
grow_total-total amount n (bep20 a b t s d) info' h e nz = ground arith
grow_total-total amount n (fnd10 a t) info' h e nz = absurd (nz (ground arith))

shrink_total-total :
    (amount n : ℕ) (info info' : XToken)
    → IsBarren (some info)
    → shrink_total amount info ≡ ok (info', n)
    → n ≢ 0
    → (total (some info') + n ≡ total (some info)) × IsBarren (some info')
unfolding shrink_total
shrink_total-total amount n (nep141 a b t s d) info' h e nz = ground arith
shrink_total-total amount n (erc20 a b t s d) info' h e nz = ground arith
shrink_total-total amount n (polygon a b t s d) info' h e nz = ground arith
shrink_total-total amount n (bep20 a b t s d) info' h e nz = ground arith
shrink_total-total amount n (fnd10 a t) info' h e nz = absurd (nz (ground arith))

-- One entry of `Balances` and the token's own entry are rewritten, by the same difference.
restock-IsBacked :
    {Native : Type 0} (s : State Native) (token who : ℕ) (o : Option Account) (info info' : XToken)
    (e : Event)
    → get token s.tokens ≡ some info
    → total (some info') < u128_mod
    → IsBarren (some info')
    → weight (held token) (token, who) o + total (some info)
      ≡ weight (held token) (token, who) (get (token, who) s.balances) + total (some info')
    → IsBacked s
    → IsBacked (
        deposit_event e (record s {
          balances = put (token, who) o s.balances;
          tokens = insert token info' s.tokens;
        }))
restock-IsBacked s token who o info info' e found small barren same b = record {
  backed = λ t. elim (Bool-cases (token == t)) [
    | inl here ↦ ground (
      arith,
      get-insert token t info' s.tokens,
      sum_by-put (held t) (token, who) o s.balances,
      b.backed t,
    )
    | inr there ↦ ground (
      arith,
      get-insert token t info' s.tokens,
      sum_by-put (held t) (token, who) o s.balances,
      b.backed t,
    )
  ];
  bounded = λ t. ground (arith, get-insert token t info' s.tokens, b.bounded t);
  barren = λ t. elim (Bool-cases (token == t)) [
    | inl here ↦ rw (get-insert token t info' s.tokens, here) barren
    | inr there ↦ rw (get-insert token t info' s.tokens, there) (b.barren t)
  ];
  fresh = λ t h. ground (arith, get-insert token t info' s.tokens, b.fresh t h);
  keyed = put-IsMap (token, who) o s.balances b.keyed;
}

module _ (c : Config) where
  -- What `do_mint` has done where it succeeds on a positive amount.
  pub do_mint-eq-ok :
      (token who amount : ℕ) (s s' : State c.Native)
      → amount ≢ 0
      → do_mint c token who amount s ≡ ok s'
      → (info info' : XToken) × (n : ℕ) × (get token s.tokens ≡ some info)
        × (grow_total amount info ≡ ok (info', n))
        × (n ≢ 0)
        × ((entry token who s).free + n < u128_mod)
        × (s'
            ≡ deposit_event (Event.token_minted token who n) (record s {
              balances =
                  put
                    (token, who)
                    (some (record (entry token who s) { free = (entry token who s).free + n }))
                    s.balances;
              tokens = insert token info' s.tokens;
            }))
  unfolding do_mint
  do_mint-eq-ok token who amount s s' nz h = elim (Option-cases (get token s.tokens)) [
    | inl missing ↦ ground arith
    | inr (info, found) ↦ elim (Result-cases (grow_total amount info)) [
      | inl (e, failed) ↦ ground arith
      | inr ((info', n), grown) ↦
          (info, info', n, found, grown, ground arith, ground arith, ground arith)
    ]
  ]

  pub do_mint-IsBacked :
      (token who amount : ℕ) (s s' : State c.Native)
      → do_mint c token who amount s ≡ ok s'
      → IsBacked s
      → IsBacked s'
  unfolding do_mint
  do_mint-IsBacked token who amount s s' h b = elim (Bool-cases (amount == 0)) [
    | inl zero ↦ let same : s ≡ s' = ground arith in rw (← same) b
    | inr nonzero ↦
        let (info, info', n, found, grown, positive, fits, e) =
          do_mint-eq-ok token who amount s s' (ground arith) h in
        let a = entry token who s in
        let rich : Account = record a { free = a.free + n } in
        let (moved, small, barren) =
          grow_total-total amount n info info' (rw found at (b.barren token)) grown positive in
        rw e (
          restock-IsBacked s token who (some rich) info info' _ found small barren (ground arith) b)
  ]

  -- What `do_burn` has done where it succeeds.
  pub do_burn-eq-ok :
      (token who amount : ℕ) (s : State c.Native) (r : ℕ × State c.Native)
      → do_burn c token who amount s ≡ ok r
      → (info info' : XToken) × (n : ℕ) × (get token s.tokens ≡ some info)
        × (shrink_total amount info ≡ ok (info', n))
        × (n ≢ 0)
        × (get (token, who) s.balances ≡ some (entry token who s))
        × (n ≤ (entry token who s).free)
        × (r ≡ (
          amount,
          deposit_event (Event.token_burned token who n) (record s {
            balances =
                put
                  (token, who)
                  (unless_dead (record (entry token who s) { free = (entry token who s).free - n }))
                  s.balances;
            tokens = insert token info' s.tokens;
          }),
        ))
  unfolding do_burn
  do_burn-eq-ok token who amount s s' h = elim (Option-cases (get token s.tokens)) [
    | inl missing ↦ ground arith
    | inr (info, found) ↦ elim (Result-cases (shrink_total amount info)) [
      | inl (e, failed) ↦ ground arith
      | inr ((info', n), shrunk) ↦
          (info, info', n, found, shrunk, ground arith, ground arith, ground arith, ground arith)
    ]
  ]

  pub do_burn-IsBacked :
      (token who amount n : ℕ) (s s' : State c.Native)
      → do_burn c token who amount s ≡ ok (n, s')
      → IsBacked s
      → IsBacked s'
  do_burn-IsBacked token who amount _ s s' h b =
      let (info, info', n, found, shrunk, positive, owned, covered, e) =
        do_burn-eq-ok token who amount s _ h in
      let a = entry token who s in
      let left = unless_dead (record a { free = a.free - n }) in
      let (moved, barren) =
        shrink_total-total amount n info info' (rw found at (b.barren token)) shrunk positive in
      let was : total (some info) < u128_mod = rw found at (b.bounded token) in
      rw (ap (λ (q : ℕ × State c.Native). q.1) e)
        (restock-IsBacked s token who left info info' _ found (omega arith) barren (ground arith) b)
