-- ===== src/Verifier/Ask/MakerLoop.antt =====
-- What the leaves of the makers of an ask in pallets/verifier show: each gains base and gives quote.
use fusotao.Prelude.{
  ℕ, zero, suc, ◌+◌, ◌*◌, ◌%◌, ◌≡◌, refl, sym, ap, ◌∙◌, true, ◌&&◌, List, [], ◌∷◌, ◌++◌, ◌==◌,
  ==_iff, both_eq, arith, u128_mod, length, append-none, append-snoc,
}
use fusotao.Support.Dispatch.{ok, value_or, bind-ok, ensure-ok}
use fusotao.Verifier.Types.{State, Config}
use fusotao.Verifier.Leaf.{
  MerkleLeaf, add128, sub128, leaf_at, try_get_account, split_old_to_sum, split_new_to_sum,
}
use fusotao.Verifier.Clearing.{
  ensure_authorized, MakerMutation, Order, Makers, ask_maker, ask_makers,
}
use fusotao.Verifier.Conserved.{total, IsShown, AreShown, read-IsShown, bounds, gain, loss}

module _ (c : Config) where
  open c use {asset}

  -- What the two leaves of the maker `m` show, with what it gained in base and lost in quote.
  abbrev MakerShown : Order → ℕ → ℕ → ℕ → MakerMutation → State asset.Store → Type 0
  MakerShown o i base quote m s =
      (b : ℕ) × (q : ℕ) × IsShown c o (i * 2 + 1) m.who o.base b m.base_balance s
      × IsShown c o (i * 2 + 2) m.who o.quote q m.quote_balance s
      × (base ≡ sub128 m.base_balance b)
      × (quote ≡ sub128 q m.quote_balance)
      × (m.filled_volume ≡ quote)

  abbrev read_maker : MerkleLeaf → MerkleLeaf → ℕ → ℕ × (ℕ × MakerMutation)
  read_maker lb lq who =
      let quote_decr = sub128 (split_old_to_sum lq) (split_new_to_sum lq) in
      let mutation : MakerMutation = record {
        who = who;
        filled_volume = quote_decr;
        base_balance = split_new_to_sum lb;
        quote_balance = split_new_to_sum lq;
      } in
      (sub128 (split_new_to_sum lb) (split_old_to_sum lb), (quote_decr, mutation))

  leaves-MakerShown :
      (o : Order) (i base quote : ℕ) (m : MakerMutation) (s : State asset.Store)
      (lb lq : MerkleLeaf) (bk qk ib iq : ℕ)
      → leaf_at o.leaves (i * 2 + 1) ≡ ok lb
      → try_get_account c.decode_account lb ≡ ok (bk, ib)
      → ensure_authorized c o ib o.base (split_old_to_sum lb) s ≡ ok tt
      → leaf_at o.leaves (i * 2 + 2) ≡ ok lq
      → try_get_account c.decode_account lq ≡ ok (qk, iq)
      → ensure_authorized c o iq o.quote (split_old_to_sum lq) s ≡ ok tt
      → (o.base == bk && o.quote == qk) ≡ true
      → (ib == iq) ≡ true
      → read_maker lb lq iq ≡ (base, (quote, m))
      → MakerShown o i base quote m s
  leaves-MakerShown o i base quote m s lb lq bk qk ib iq read own auth read' own' auth' tokens same
        e =
      let (same_base, same_quote) = both_eq o.base bk o.quote qk tokens in
      let b = split_old_to_sum lb in
      let q = split_old_to_sum lq in
      let who = ap (λ t. t.1.1.who) e in
      let taken = ap (λ t. t.1.1.base_balance) e in
      let given = ap (λ t. t.1.1.quote_balance) e in
      (
        b,
        q,
        read-IsShown c o (i * 2 + 1) lb o.base bk m.who ib m.base_balance s read own auth same_base
            ((==_iff ib iq).0 same ∙ who) taken,
        read-IsShown c o (i * 2 + 2) lq o.quote qk m.who iq m.quote_balance s read' own' auth'
            same_quote who given,
        sym (ap (λ t. t.0) e) ∙ ap (λ n. sub128 n b) taken,
        sym (ap (λ t. t.1.0) e) ∙ ap (λ n. sub128 q n) given,
        sym (ap (λ t. t.1.1.filled_volume) e) ∙ ap (λ t. t.1.0) e,
      )

  ask_maker-shown :
      (o : Order) (i base quote : ℕ) (m : MakerMutation) (s : State asset.Store)
      → ask_maker c o i s ≡ ok (base, (quote, m))
      → MakerShown o i base quote m s
  unfolding ask_maker
  ask_maker-shown o i base quote m s h =
      let (lb, read, h1) = bind-ok (leaf_at o.leaves (i * 2 + 1)) _ _ h in
      let ((bk, ib), own, h2) = bind-ok (try_get_account c.decode_account lb) _ _ h1 in
      let (u, auth, h3) =
        bind-ok (ensure_authorized c o ib o.base (split_old_to_sum lb) s) _ _ h2 in
      let (lq, read', h4) = bind-ok (leaf_at o.leaves (i * 2 + 2)) _ _ h3 in
      let ((qk, iq), own', h5) = bind-ok (try_get_account c.decode_account lq) _ _ h4 in
      let (tokens, h6) = ensure-ok (o.base == bk && o.quote == qk) _ _ _ h5 in
      let (u', auth', h7) =
        bind-ok (ensure_authorized c o iq o.quote (split_old_to_sum lq) s) _ _ h6 in
      let (same, h8) = ensure-ok (ib == iq) _ _ _ h7 in
      leaves-MakerShown o i base quote m s lb lq bk qk ib iq read own auth read' own' auth' tokens
        same (ap (value_or (base, (quote, m))) h8)

  -- The loop goes on from `acc` with `n` makers, which gain base and lose quote.
  pub ask_makers-shown :
      (n i : ℕ) (o : Order) (acc m : Makers) (s : State asset.Store)
      → ask_makers c n i o acc s ≡ ok m
      → (ms : List MakerMutation) × (b : ℕ) × (q : ℕ) × (m.mutations ≡ acc.mutations ++ ms)
        × (length ms ≡ n)
        × AreShown c o ms i b q s
        × ((b + m.base) % u128_mod ≡ (total (λ m. m.base_balance) ms + acc.base) % u128_mod)
        × ((q + acc.quote) % u128_mod ≡ (total (λ m. m.quote_balance) ms + m.quote) % u128_mod)
        × ((total (λ m. m.filled_volume) ms + acc.quote) % u128_mod ≡ m.quote % u128_mod)
  unfolding ask_makers total
  ask_makers-shown zero i o acc m s h =
      let e = ap (value_or acc) h in
      (
        [],
        0,
        0,
        sym (append-none acc.mutations ∙ ap (λ m. m.mutations) e),
        refl,
        (refl, refl),
        omega (arith, ap (λ m. m.base) e),
        omega (arith, ap (λ m. m.quote) e),
        omega (arith, ap (λ m. m.quote) e),
      )
  ask_makers-shown (suc n) i o acc m s h =
      let ((base, (quote, mutation)), read, h1) = bind-ok (ask_maker c o i s) _ _ h in
      let grown : Makers = record {
        base = add128 acc.base base;
        quote = add128 acc.quote quote;
        mutations = acc.mutations ++ (mutation ∷ []);
      } in
      let (b, q, shown, shown', gained, lost, filled) =
        ask_maker-shown o i base quote mutation s read in
      let (ms, b', q', all_, count, rest, bases, quotes, volumes) =
        ask_makers-shown n (i + 1) o grown m s h1 in
      let small = (bounds c o (i * 2 + 1) mutation.who o.base b mutation.base_balance s shown).0 in
      let small' =
        (bounds c o (i * 2 + 2) mutation.who o.quote q mutation.quote_balance s shown').1 in
      (
        mutation ∷ ms,
        b + b',
        q + q',
        all_ ∙ append-snoc acc.mutations mutation ms,
        ap suc count,
        (b, q, b', q', refl, refl, shown, shown', rest),
        gain b mutation.base_balance base b' (total (λ m. m.base_balance) ms) acc.base m.base small
            gained bases,
        loss q mutation.quote_balance quote q' (total (λ m. m.quote_balance) ms) acc.quote m.quote
            small' lost quotes,
        omega (arith, volumes, filled),
      )
