-- ===== src/Verifier/Ask/Balance.antt =====
-- What a proof of an ask that passes shows of the amounts: nothing is lost between the makers, the
-- taker and the fees.
use fusotao.Prelude.{
  ℕ, ◌+◌, ◌/◌, ◌%◌, ◌≡◌, sym, ap, ◌∙◌, subst, true, not, ◌&&◌, some, [], ◌==◌, ==_iff, both_eq,
  arith, if◌then◌else◌, checked_add, checked_sub, u128_mod, length,
}
use fusotao.Support.Dispatch.{ok, value_or, bind-then, ok_or-then, ensure-then}
use fusotao.Verifier.Types.{State, Config}
use fusotao.Verifier.Leaf.{
  MerkleLeaf, sub128, add128, leaf_at, try_get_account, split_old_to_sum, split_new_to_sum,
  split_old_to_u128, split_new_to_u128,
}
use fusotao.Verifier.Clearing.{
  ensure_leaves, ensure_authorized, ensure_symbol, ClearingResult, Order, Makers, ask_makers,
}
use fusotao.Verifier.Conserved.{
  total, IsShown, AreShown, IsConserved, read-IsShown, bounds, checked_sum, checked_difference,
}
use fusotao.Verifier.Ask.{AskDeltas, ask_taker, best_prices, ask_book, verify_ask_limit}
use fusotao.Verifier.Ask.MakerLoop.{ask_makers-shown}

module _ (c : Config) where
  open c use {asset}

  -- What the taker's two leaves show, with what it gave in base and what it gained in quote.
  abbrev TakerShown : Order → AskDeltas → State asset.Store → Type 0
  TakerShown o d s =
      (b : ℕ) × (q : ℕ) × IsShown c o (o.maker_accounts + 1) d.taker o.base b d.base_balance s
      × IsShown c o (o.maker_accounts + 2) d.taker o.quote q d.quote_balance s
      × (d.tb_delta ≡ sub128 b d.base_balance)
      × (q + d.tq_delta ≡ d.quote_balance)

  leaves-TakerShown :
      (o : Order) (d : AskDeltas) (s : State asset.Store) (lb lq : MerkleLeaf)
      (bk qk ib iq old_base new_quote old_quote : ℕ)
      → leaf_at o.leaves (o.maker_accounts + 1) ≡ ok lb
      → try_get_account c.decode_account lb ≡ ok (bk, ib)
      → checked_add (split_old_to_u128 lb).0 (split_old_to_u128 lb).1 ≡ some old_base
      → ensure_authorized c o ib o.base old_base s ≡ ok tt
      → leaf_at o.leaves (o.maker_accounts + 2) ≡ ok lq
      → try_get_account c.decode_account lq ≡ ok (qk, iq)
      → ensure_authorized c o iq o.quote (split_old_to_sum lq) s ≡ ok tt
      → checked_add (split_new_to_u128 lq).0 (split_new_to_u128 lq).1 ≡ some new_quote
      → checked_add (split_old_to_u128 lq).0 (split_old_to_u128 lq).1 ≡ some old_quote
      → checked_sub new_quote old_quote ≡ some d.tq_delta
      → (bk == o.base && qk == o.quote) ≡ true
      → (ib == iq) ≡ true
      → d.tb_delta ≡ sub128 (split_old_to_sum lb) (split_new_to_sum lb)
      → d.taker ≡ ib
      → d.base_balance ≡ split_new_to_sum lb
      → d.quote_balance ≡ split_new_to_sum lq
      → TakerShown o d s
  unfolding split_old_to_sum split_new_to_sum
  leaves-TakerShown o d s lb lq bk qk ib iq old_base new_quote old_quote read own fits auth read'
        own' auth' fits' fits_ gained tokens same given who base_now quote_now =
      let (same_base, same_quote) = both_eq bk o.base qk o.quote tokens in
      let (exact, whole) =
        checked_sum (split_old_to_u128 lb).0 (split_old_to_u128 lb).1 old_base fits in
      let (exact', whole') =
        checked_sum (split_new_to_u128 lq).0 (split_new_to_u128 lq).1 new_quote fits' in
      let (exact_, whole_) =
        checked_sum (split_old_to_u128 lq).0 (split_old_to_u128 lq).1 old_quote fits_ in
      (
        split_old_to_sum lb,
        split_old_to_sum lq,
        read-IsShown c o (o.maker_accounts + 1) lb o.base bk d.taker ib d.base_balance s read own
            (rw (← exact) auth) (sym same_base) (sym who) (sym base_now),
        read-IsShown c o (o.maker_accounts + 2) lq o.quote qk d.taker iq d.quote_balance s read'
            own' auth' (sym same_quote) (sym ((==_iff ib iq).0 same) ∙ sym who) (sym quote_now),
        given ∙ ap (λ n. sub128 (split_old_to_sum lb) n) (sym base_now),
        checked_difference new_quote old_quote d.tq_delta (split_new_to_sum lq)
              (split_old_to_sum lq) gained exact' exact_
            ∙ sym quote_now,
      )

  ask_taker-shown :
      (o : Order) (d : AskDeltas) (s : State asset.Store)
      → ask_taker c o s ≡ ok d
      → TakerShown o d s
  unfolding ask_taker split_old_to_sum split_new_to_sum
  ask_taker-shown o d s h = bind-then (leaf_at o.leaves 0) _ _ h λ book r0 h0.
      bind-then (ensure_symbol o book) _ _ h0 λ u0 r1 h1.
        bind-then (leaf_at o.leaves (o.maker_accounts + 1)) _ _ h1 λ lb read h2.
          bind-then (try_get_account c.decode_account lb) _ _ h2 λ bi own h3.
            ok_or-then (checked_add (split_old_to_u128 lb).0 (split_old_to_u128 lb).1) _ _ _ h3
              λ old_base fits h4.
                bind-then (ensure_authorized c o bi.1 o.base old_base s) _ _ h4 λ u1 auth h5.
                  bind-then (leaf_at o.leaves (o.maker_accounts + 2)) _ _ h5 λ lq read' h6.
                    bind-then (try_get_account c.decode_account lq) _ _ h6 λ qi own' h7.
                      bind-then (ensure_authorized c o qi.1 o.quote (split_old_to_sum lq) s) _ _ h7
                        λ u2 auth' h8.
                          ok_or-then (checked_add (split_new_to_u128 lq).0 (split_new_to_u128 lq).1)
                            _ _ _ h8
                            λ new_quote fits' h9.
                              ok_or-then
                                (checked_add (split_old_to_u128 lq).0 (split_old_to_u128 lq).1) _ _
                                _ h9
                                λ old_quote fits_ h10.
                                  ok_or-then (checked_sub new_quote old_quote) _ _ _ h10
                                    λ tq_delta gained h11.
                                      ensure-then (bi.0 == o.base && qi.0 == o.quote) _ _ _ h11
                                        λ tokens h12.
                                          ensure-then (bi.1 == qi.1) _ _ _ h12 λ same h13.
                                            let (ask0, bid0) = split_old_to_u128 book in
                                            let (ask1, bid1) = split_new_to_u128 book in
                                            let (tba0, tbf0) = split_old_to_u128 lb in
                                            let (tba1, tbf1) = split_new_to_u128 lb in
                                            ensure-then
                                              (if not (sub128 ask1 ask0 == 0)
                                                then o.amount == sub128 tba0 tba1
                                                else tbf0 == tbf1)
                                              _ _ _ h13
                                              λ placed h14.
                                                ensure-then
                                                  (sub128 bid0 bid1
                                                    == sub128 (add128 tba0 tbf0) (add128 tba1 tbf1))
                                                  _ _ _ h14
                                                  λ filled h15.
                                                    let e = sym (ap (value_or d) h15) in
                                                    leaves-TakerShown o d s lb lq bi.0 qi.0 bi.1
                                                      qi.1 old_base new_quote old_quote read own
                                                      fits auth read' own' auth' fits' fits_
                                                      (gained ∙ ap (λ d. some d.tq_delta) (sym e))
                                                      tokens same (ap (λ d. d.tb_delta) e)
                                                      (ap (λ d. d.taker) e)
                                                      (ap (λ d. d.base_balance) e)
                                                      (ap (λ d. d.quote_balance) e)

  -- With what the makers and the taker show, the two checks of `verify_ask_limit` on the fees.
  checked-IsConserved :
      (o : Order) (d : AskDeltas) (m : Makers) (cr : ClearingResult) (s : State asset.Store)
      → TakerShown o d s
      → ask_makers c (o.maker_accounts / 2) 0 o (record { base = 0; quote = 0; mutations = [] }) s
        ≡ ok m
      → (add128 m.base cr.base_fee == d.tb_delta) ≡ true
      → (add128 d.tq_delta cr.quote_fee == m.quote) ≡ true
      → cr.makers ≡ m.mutations
      → cr.taker.who ≡ d.taker
      → cr.taker.base_balance ≡ d.base_balance
      → cr.taker.quote_balance ≡ d.quote_balance
      → IsConserved c o cr s
        × (total (λ m. m.filled_volume) cr.makers % u128_mod ≡ m.quote % u128_mod)
  checked-IsConserved o d m cr s (bt, qt, shown, shown', given, gained) made base_paid quote_paid
        makers who base_now quote_now =
      let start : Makers = record { base = 0; quote = 0; mutations = [] } in
      let (ms, b, q, all_, count, rest, bases, quotes, volumes) =
        ask_makers-shown c (o.maker_accounts / 2) 0 o start m s made in
      let same : cr.makers ≡ ms = makers ∙ all_ in
      let small = (bounds c o (o.maker_accounts + 1) d.taker o.base bt d.base_balance s shown).1 in
      (
        record {
          makers_base = b;
          makers_quote = q;
          taker_base = bt;
          taker_quote = qt;
          count = ap length same ∙ count;
          makers = subst (λ ms. AreShown c o ms 0 b q s) (sym same) rest;
          base_shown = rw (who, base_now) shown;
          quote_shown = rw (who, quote_now) shown';
          base_kept =
              rw (same, base_now) (omega (arith, bases, given, small, (==_iff _ _).0 base_paid));
          quote_kept =
              rw (same, quote_now) (omega (arith, quotes, gained, (==_iff _ _).0 quote_paid));
        },
        rw same (omega (arith, volumes)),
      )

  -- A proof of an ask that passes: makers and taker stand in the leaves under their own names, with
  -- what the dominator is authorized to use of them before, as far as the verifier compares the two,
  -- and with the balances that the clearing gives them. Of base, and of quote, they had as much in all
  -- before as they have in all after it together with the fee, modulo 2^128. The makers' filled volumes
  -- add up to the taker's modulo 2^128, and the fees are what the rates ask of the taker's filled amount
  -- and volume.
  pub verify_ask_limit-IsConserved :
      (o : Order) (cr : ClearingResult) (s : State asset.Store)
      → verify_ask_limit c o s ≡ ok cr
      → IsConserved c o cr s
        × (total (λ m. m.filled_volume) cr.makers % u128_mod ≡ cr.taker.filled_volume % u128_mod)
        × (cr.base_fee ≡ c.mul_ceil o.maker_fee cr.taker.filled_amount)
        × (cr.quote_fee ≡ c.mul_ceil o.taker_fee cr.taker.filled_volume)
  unfolding verify_ask_limit
  verify_ask_limit-IsConserved o cr s h = bind-then (ensure_leaves o) _ _ h λ u0 r0 h0.
      bind-then (ask_taker c o s) _ _ h0 λ d read h1.
        let start : Makers = record { base = 0; quote = 0; mutations = [] } in
        bind-then (ask_makers c (o.maker_accounts / 2) 0 o start s) _ _ h1 λ m made h2.
          let base_charged = c.mul_ceil o.maker_fee d.tb_delta in
          let quote_charged = c.mul_ceil o.taker_fee m.quote in
          ensure-then (add128 m.base base_charged == d.tb_delta) _ _ _ h2 λ base_paid h3.
            ensure-then (add128 d.tq_delta quote_charged == m.quote) _ _ _ h3 λ quote_paid h4.
              bind-then (best_prices o) _ _ h4 λ best r5 h5.
                bind-then (ask_book c o d best) _ _ h5 λ u6 r6 h6.
                  let e = sym (ap (value_or cr) h6) in
                  let fee = ap (λ r. r.base_fee) e in
                  let fee' = ap (λ r. r.quote_fee) e in
                  let amount = ap (λ r. r.taker.filled_amount) e in
                  let volume = ap (λ r. r.taker.filled_volume) e in
                  let (kept, volumes) =
                    checked-IsConserved o d m cr s (ask_taker-shown o d s read) made
                      (rw fee base_paid) (rw fee' quote_paid) (ap (λ r. r.makers) e)
                      (ap (λ r. r.taker.who) e) (ap (λ r. r.taker.base_balance) e)
                      (ap (λ r. r.taker.quote_balance) e) in
                  (
                    kept,
                    volumes ∙ ap (λ n. n % u128_mod) (sym volume),
                    fee ∙ ap (c.mul_ceil o.maker_fee) (sym amount),
                    fee' ∙ ap (c.mul_ceil o.taker_fee) (sym volume),
                  )
