-- ===== src/Verifier/Bid/MakerLoop.antt =====
-- What the leaves of the makers of a bid in pallets/verifier show: each gives base and gains quote.
use fusotao.Prelude.{
  ℕ, zero, suc, ◌+◌, ◌*◌, ◌%◌, ◌≡◌, refl, sym, ap, ◌∙◌, ◌&&◌, some, List, [], ◌∷◌, ◌++◌, ◌==◌,
  ==_iff, both_eq, arith, checked_add, checked_sub, u128_mod, length, append-none, append-snoc,
}
use fusotao.Support.Dispatch.{ok, value_or, bind-then, ok_or-then, ensure-then}
use fusotao.Verifier.Types.{State, Config}
use fusotao.Verifier.Leaf.{
  sub128, add128, leaf_at, try_get_account, split_old_to_sum, split_new_to_sum,
}
use fusotao.Verifier.Clearing.{
  ensure_authorized, MakerMutation, Order, Makers, bid_maker, bid_makers,
}
use fusotao.Verifier.Conserved.{
  total, IsShown, AreShown, read-IsShown, bounds, loss, checked_sum, checked_difference,
}

module _ (c : Config) where
  open c use {asset}

  abbrev MakerShown : Order → ℕ → ℕ → ℕ → MakerMutation → State asset.Store → Type 0
  MakerShown o i base quote m s =
      (b : ℕ) × (q : ℕ) × IsShown c o (i * 2 + 1) m.who o.base b m.base_balance s
      × IsShown c o (i * 2 + 2) m.who o.quote q m.quote_balance s
      × (base ≡ sub128 b m.base_balance)
      × (q + quote ≡ m.quote_balance)
      × (m.filled_volume ≡ quote)

  bid_maker-shown :
      (o : Order) (i base quote : ℕ) (m : MakerMutation) (s : State asset.Store)
      → bid_maker c o i s ≡ ok (base, (quote, m))
      → MakerShown o i base quote m s
  unfolding bid_maker
  bid_maker-shown o i base quote m s h =
      bind-then (leaf_at o.leaves (i * 2 + 1)) _ _ h λ lb read h1.
        bind-then (try_get_account c.decode_account lb) _ _ h1 λ bi own h2.
          bind-then (ensure_authorized c o bi.1 o.base (split_old_to_sum lb) s) _ _ h2 λ u1 auth h3.
            bind-then (leaf_at o.leaves (i * 2 + 2)) _ _ h3 λ lq read' h4.
              bind-then (try_get_account c.decode_account lq) _ _ h4 λ qi own' h5.
                ensure-then (o.quote == qi.0 && o.base == bi.0) _ _ _ h5 λ tokens h6.
                  ensure-then (bi.1 == qi.1) _ _ _ h6 λ same h7.
                    bind-then (ensure_authorized c o qi.1 o.quote (split_old_to_sum lq) s) _ _ h7
                      λ u2 auth' h8.
                        ok_or-then (checked_sub (split_new_to_sum lq) (split_old_to_sum lq)) _ _ _
                          h8
                          λ quote_incr gained h9.
                            let e = ap (value_or (base, (quote, m))) h9 in
                            let (same_quote, same_base) = both_eq o.quote qi.0 o.base bi.0 tokens in
                            let who = ap (λ t. t.1.1.who) e in
                            let given = ap (λ t. t.1.1.base_balance) e in
                            let taken = ap (λ t. t.1.1.quote_balance) e in
                            (
                              split_old_to_sum lb,
                              split_old_to_sum lq,
                              read-IsShown c o (i * 2 + 1) lb o.base bi.0 m.who bi.1 m.base_balance
                                  s read own auth same_base who given,
                              read-IsShown c o (i * 2 + 2) lq o.quote qi.0 m.who qi.1
                                  m.quote_balance s read' own' auth' same_quote
                                  (sym ((==_iff bi.1 qi.1).0 same) ∙ who) taken,
                              sym (ap (λ t. t.0) e)
                                  ∙ ap (λ n. sub128 (split_old_to_sum lb) n) given,
                              checked_difference (split_new_to_sum lq) (split_old_to_sum lq) quote
                                  m.quote_balance (split_old_to_sum lq)
                                  (gained ∙ ap (λ t. some t.1.0) e) taken refl,
                              sym (ap (λ t. t.1.1.filled_volume) e) ∙ ap (λ t. t.1.0) e,
                            )

  -- The loop goes on from `acc` with `n` makers, which lose base and gain quote.
  pub bid_makers-shown :
      (n i : ℕ) (o : Order) (acc m : Makers) (s : State asset.Store)
      → bid_makers c n i o acc s ≡ ok m
      → (ms : List MakerMutation) × (b : ℕ) × (q : ℕ) × (m.mutations ≡ acc.mutations ++ ms)
        × (length ms ≡ n)
        × AreShown c o ms i b q s
        × ((b + acc.base) % u128_mod ≡ (total (λ m. m.base_balance) ms + m.base) % u128_mod)
        × ((q + m.quote) ≡ (total (λ m. m.quote_balance) ms + acc.quote))
        × (total (λ m. m.filled_volume) ms + acc.quote ≡ m.quote)
  unfolding bid_makers total
  bid_makers-shown zero i o acc m s h =
      let e = ap (value_or acc) h in
      (
        [],
        0,
        0,
        sym (append-none acc.mutations ∙ ap (λ m. m.mutations) e),
        refl,
        (refl, refl),
        omega (arith, ap (λ m. m.base) e),
        omega (arith, ap (λ m. m.quote) e),
        omega (arith, ap (λ m. m.quote) e),
      )
  bid_makers-shown (suc n) i o acc m s h = bind-then (bid_maker c o i s) _ _ h λ out read h1.
      let base = out.0 in
      let quote = out.1.0 in
      let mutation = out.1.1 in
      ok_or-then (checked_add acc.quote quote) _ _ _ h1 λ sum fits h2.
        let grown : Makers = record {
          base = add128 acc.base base;
          quote = sum;
          mutations = acc.mutations ++ (mutation ∷ []);
        } in
        let (b, q, shown, shown', lost, gained, filled) =
          bid_maker-shown o i base quote mutation s read in
        let (ms, b', q', all_, count, rest, bases, quotes, volumes) =
          bid_makers-shown n (i + 1) o grown m s h2 in
        let small =
          (bounds c o (i * 2 + 1) mutation.who o.base b mutation.base_balance s shown).1 in
        let exact = (checked_sum acc.quote quote sum fits).1 in
        (
          mutation ∷ ms,
          b + b',
          q + q',
          all_ ∙ append-snoc acc.mutations mutation ms,
          ap suc count,
          (b, q, b', q', refl, refl, shown, shown', rest),
          loss b mutation.base_balance base b' (total (λ m. m.base_balance) ms) acc.base m.base
              small lost bases,
          omega (arith, quotes, gained, exact),
          omega (arith, volumes, filled, exact),
        )
