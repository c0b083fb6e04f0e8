-- ===== src/Verifier/Bid.antt =====
-- `verify_bid_limit` of pallets/verifier/src/lib.rs: the leaves of an order that buys base for quote.
pub mod MakerLoop
pub mod Balance
use fusotao.Prelude.{
  ℕ, ◌+◌, ◌-◌, ◌/◌, true, not, ◌&&◌, [], ◌==◌, ltb, leb, if◌then◌else◌, checked_add, checked_sub,
}
use fusotao.Support.Dispatch.{Result, ok, ◌>>=◌, ◌>>◌, ensure, ok_or, VerifierError}
use fusotao.Verifier.Types.{State, Config, fail}
use fusotao.Verifier.Leaf.{
  unsatisfied, add128, sub128, try_get_account, try_get_orderpage, leaf_at, last_leaf,
  split_old_to_u128, split_new_to_u128, split_old_to_sum, split_new_to_sum,
}
use fusotao.Verifier.Clearing.{
  TakerMutation, ClearingResult, Order, ensure_leaves, ensure_authorized, bid_makers, bid_pages,
}
use fusotao.Verifier.Ask.{BestPrices, best_prices}

-- The deltas of the first leaf, and the taker's accounts.
pub record BidDeltas : Type 0 where
  pub ask_delta : ℕ
  pub bid_delta : ℕ
  pub tb_delta : ℕ
  pub tq_delta : ℕ
  pub taker : ℕ
  pub tba1 : ℕ
  pub tbf1 : ℕ
  pub tqa1 : ℕ
  pub tqf1 : ℕ

module _ (c : Config) where
  open c use {asset}

  unfoldable pub bid_taker : Order → State asset.Store → Result BidDeltas
  unfolding leaf_at split_old_to_u128 split_new_to_u128 try_get_account
  bid_taker o s = do
    book ← leaf_at o.leaves 0
    let (ask0, bid0) = split_old_to_u128 book
    let (ask1, bid1) = split_new_to_u128 book
    let ask_delta = sub128 ask0 ask1
    let bid_delta = sub128 bid1 bid0
    taker_base ← leaf_at o.leaves (o.maker_accounts + 1)
    let (tba0, tbf0) = split_old_to_u128 taker_base
    let (tba1, tbf1) = split_new_to_u128 taker_base
    let tb_delta = sub128 (add128 tba1 tbf1) (add128 tba0 tbf0)
    (bk, taker_b_id) ← try_get_account c.decode_account taker_base
    ensure_authorized c o taker_b_id o.base (add128 tba0 tbf0) s
    taker_quote ← leaf_at o.leaves (o.maker_accounts + 2)
    let (tqa0, tqf0) = split_old_to_u128 taker_quote
    let (tqa1, tqf1) = split_new_to_u128 taker_quote
    (qk, taker_q_id) ← try_get_account c.decode_account taker_quote
    ensure_authorized c o taker_q_id o.quote (add128 tqa0 tqf0) s
    old_quote ← ok_or (checked_add tqa0 tqf0) (fail VerifierError.overflow)
    new_quote ← ok_or (checked_add tqa1 tqf1) (fail VerifierError.overflow)
    tq_delta ← ok_or (checked_sub old_quote new_quote) (fail VerifierError.overflow)
    ensure (bk == o.base && qk == o.quote) unsatisfied
    ensure (taker_b_id == taker_q_id) unsatisfied
    ok (record {
      ask_delta = ask_delta;
      bid_delta = bid_delta;
      tb_delta = tb_delta;
      tq_delta = tq_delta;
      taker = taker_b_id;
      tba1 = tba1;
      tbf1 = tbf1;
      tqa1 = tqa1;
      tqf1 = tqf1;
    })

  -- The last page, where trading happened; `pre_best` is not compared with its price.
  unfoldable pub bid_traded : Order → BidDeltas → BestPrices → ℕ → ℕ → Result (Unit {0})
  unfolding leaf_at try_get_orderpage split_old_to_sum split_new_to_sum
  bid_traded o d best base_charged taken_asks = do
    page ← last_leaf o.leaves
    (b, (q, p)) ← try_get_orderpage page
    let before = split_old_to_sum page
    let now = split_new_to_sum page
    if not (d.bid_delta == 0)
        then (do
          ensure (b == o.base && q == o.quote && p == o.price) unsatisfied
          ensure (best.bid1 == o.price) unsatisfied
          ensure (add128 (add128 taken_asks before) now == o.amount) unsatisfied)
        else (do
          ensure (b == o.base && q == o.quote) unsatisfied
          ensure (best.bid1 == best.bid0) unsatisfied
          bought ← ok_or (checked_add d.tb_delta base_charged) (fail VerifierError.overflow)
          offered ← ok_or (checked_add taken_asks before) (fail VerifierError.overflow)
          sold ← ok_or (checked_sub offered now) (fail VerifierError.overflow)
          ensure (bought == sold) unsatisfied)

  unfoldable pub bid_placed : Order → BidDeltas → BestPrices → Result (Unit {0})
  unfolding leaf_at try_get_orderpage split_old_to_sum split_new_to_sum
  bid_placed o d best = do
    ensure (best.ask1 == best.ask0) unsatisfied
    if not (d.bid_delta == 0)
        then (do
          page ← last_leaf o.leaves
          (b, (q, p)) ← try_get_orderpage page
          ensure (b == o.base && q == o.quote && p == o.price) unsatisfied
          ensure (o.amount == sub128 (split_new_to_sum page) (split_old_to_sum page)) unsatisfied)
        else ok tt

  unfoldable pub bid_book : Order → BidDeltas → BestPrices → ℕ → Result (Unit {0})
  unfolding bid_traded bid_placed bid_pages
  bid_book o d best base_charged =
      if not (d.ask_delta == 0)
      then (do
        ensure (ltb 0 o.pages && leb best.ask0 o.price) unsatisfied
        (_, taken_asks) ← bid_pages (o.pages - 1) 0 o best.ask0 0
        bid_traded o d best base_charged taken_asks)
      else bid_placed o d best

  unfoldable pub verify_bid_limit : Order → State asset.Store → Result ClearingResult
  unfolding bid_taker bid_book bid_makers best_prices
  verify_bid_limit o s = do
    ensure_leaves o
    d ← bid_taker o s
    m ← bid_makers c (o.maker_accounts / 2) 0 o (record { base = 0; quote = 0; mutations = [] }) s
    let quote_charged = c.mul_ceil o.maker_fee d.tq_delta
    received ← ok_or (checked_add m.quote quote_charged) (fail VerifierError.overflow)
    ensure (received == d.tq_delta) unsatisfied
    let base_charged = c.mul_ceil o.taker_fee m.base
    bought ← ok_or (checked_add d.tb_delta base_charged) (fail VerifierError.overflow)
    ensure (bought == m.base) unsatisfied
    ensure (d.ask_delta == m.base) unsatisfied
    ensure (if not (d.bid_delta == 0) then d.bid_delta == sub128 o.amount m.base else true)
        unsatisfied
    new_base ← ok_or (checked_add d.tba1 d.tbf1) (fail VerifierError.overflow)
    new_quote ← ok_or (checked_add d.tqa1 d.tqf1) (fail VerifierError.overflow)
    let taker : TakerMutation = record {
      who = d.taker;
      unfilled_volume = d.tqf1;
      filled_volume = d.tq_delta;
      filled_amount = m.base;
      base_balance = new_base;
      quote_balance = new_quote;
    }
    best ← best_prices o
    bid_book o d best base_charged
    ok (record {
      makers = m.mutations;
      taker = taker;
      base_fee = base_charged;
      quote_fee = quote_charged;
    })
