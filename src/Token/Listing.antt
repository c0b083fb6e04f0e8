-- ===== src/Token/Listing.antt =====
-- Creating a token, and the calls on its entry, keep the books of pallets/token.
use fusotao.Prelude.{
  ℕ, ◌+◌, ◌%◌, ◌<◌, ◌≡◌, refl, Bool-cases, Option-cases, inl, inr, some, arith, ◌==◌, u32_mod,
  nat_eq, pair_eq, bytes_eq,
}
use fusotao.Support.Storage.{get, get-insert, insert}
use fusotao.Support.Dispatch.{ok, Origin, Result-cases}
use fusotao.Support.XToken.{XToken, nep141, erc20, bep20, polygon, fnd10}
use fusotao.Token.Types.{State, Config}
use fusotao.Token.Supply.{total, admit, create, mark_stable, with_stable}
use fusotao.Token.Invariant.{IsBacked, IsBarren}

-- Marking a token stable changes nothing else of its entry.
with_stable-total :
    (info info' : XToken)
    → with_stable info ≡ ok info'
    → (total (some info') ≡ total (some info)) × IsBarren (some info')
with_stable-total (nep141 a b t s d) info' e = ground arith
with_stable-total (erc20 a b t s d) info' e = ground arith
with_stable-total (polygon a b t s d) info' e = ground arith
with_stable-total (bep20 a b t s d) info' e = ground arith
with_stable-total (fnd10 a t) info' e = ground arith

module _ (c : Config) where
  mark_stable-eq-ok :
      (origin : Origin) (id : ℕ) (s s' : State c.Native)
      → mark_stable c origin id s ≡ ok s'
      → (info info' : XToken) × (get id s.tokens ≡ some info)
        × (with_stable info ≡ ok info')
        × (s' ≡ record s { tokens = insert id info' s.tokens })
  unfolding mark_stable
  mark_stable-eq-ok origin id s s' h = elim (Option-cases (get id s.tokens)) [
    | inl missing ↦ ground arith
    | inr (info, found) ↦ elim (Result-cases (with_stable info)) [
      | inl (e, failed) ↦ ground arith
      | inr (info', marked) ↦ (info, info', found, marked, ground arith)
    ]
  ]

  pub mark_stable-IsBacked :
      (origin : Origin) (id : ℕ) (s s' : State c.Native)
      → mark_stable c origin id s ≡ ok s'
      → IsBacked s
      → (s'.next_token_id ≡ s.next_token_id) × IsBacked s'
  mark_stable-IsBacked origin id s s' h b =
      let (info, info', found, marked, e) = mark_stable-eq-ok origin id s s' h in
      let (same, barren) = with_stable-total info info' marked in
      rw e (
        refl,
        record {
          backed = λ t. ground (arith, get-insert id t info' s.tokens, b.backed t);
          bounded = λ t. ground (arith, get-insert id t info' s.tokens, b.bounded t);
          barren = λ t. elim (Bool-cases (id == t)) [
            | inl here ↦ rw (get-insert id t info' s.tokens, here) barren
            | inr there ↦ rw (get-insert id t info' s.tokens, there) (b.barren t)
          ];
          fresh = λ t k. ground (arith, get-insert id t info' s.tokens, b.fresh t k);
          keyed = b.keyed;
        },
      )

  -- An entry is admitted with no supply, and only the index by name may change.
  admit-eq-ok :
      (id : ℕ) (info info' : XToken) (s s' : State c.Native)
      → admit c id info s ≡ ok (info', s')
      → (total (some info') ≡ 0)
        × IsBarren (some info')
        × (s' ≡ record s { token_by_name = s'.token_by_name })
  unfolding admit
  admit-eq-ok id (nep141 a b t m d) info' s s' h = ground arith
  admit-eq-ok id (erc20 a b t m d) info' s s' h = ground arith
  admit-eq-ok id (polygon a b t m d) info' s s' h = ground arith
  admit-eq-ok id (bep20 a b t m d) info' s s' h = ground arith
  admit-eq-ok id (fnd10 a t) info' s s' h = ground arith

  pub create-eq-ok :
      (info : XToken) (s : State c.Native) (r : ℕ × State c.Native)
      → create c info s ≡ ok r
      → (info' : XToken) × (total (some info') ≡ 0)
        × IsBarren (some info')
        × (r.0 ≡ s.next_token_id)
        × (r.1 ≡ record s {
          next_token_id = (s.next_token_id + 1) % u32_mod;
          tokens = insert s.next_token_id info' s.tokens;
          token_by_name = (r.1).token_by_name;
        })
  unfolding create
  create-eq-ok info s r h = elim (Result-cases (admit c s.next_token_id info s)) [
    | inl (e, failed) ↦ ground arith
    | inr ((info', s'), admitted) ↦
        let facts = admit-eq-ok s.next_token_id info info' s s' admitted in
        (info', ground arith, facts.1, ground arith, ground arith)
  ]

  -- A new token starts with nothing issued and nothing held, under an id that was free.
  pub create-IsBacked :
      (info : XToken) (id : ℕ) (s s' : State c.Native)
      → create c info s ≡ ok (id, s')
      → s.next_token_id + 1 < u32_mod
      → IsBacked s
      → (s'.next_token_id ≡ s.next_token_id + 1) × IsBacked s'
  create-IsBacked info id s s' h room b =
      let (info', empty, barren, _, e) = create-eq-ok info s _ h in
      let next = s.next_token_id in
      rw e (
        omega arith,
        record {
          backed = λ t. ground (arith, get-insert next t info' s.tokens, b.backed t, b.fresh t);
          bounded = λ t. ground (arith, get-insert next t info' s.tokens, b.bounded t);
          barren = λ t. elim (Bool-cases (next == t)) [
            | inl here ↦ rw (get-insert next t info' s.tokens, here) barren
            | inr there ↦ rw (get-insert next t info' s.tokens, there) (b.barren t)
          ];
          fresh = λ t k. ground (arith, get-insert next t info' s.tokens, b.fresh t);
          keyed = b.keyed;
        },
      )
