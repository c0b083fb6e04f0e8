-- ===== src/Verifier/Ask.antt =====
-- `verify_ask_limit` of pallets/verifier/src/lib.rs: the leaves of an order that sells base for quote.
pub mod MakerLoop
pub mod Balance
use fusotao.Prelude.{
  ℕ, ◌+◌, ◌-◌, ◌/◌, Bool, not, ◌&&◌, List, [], ◌∷◌, ◌==◌, ltb, leb, if◌then◌else◌, checked_add,
  checked_sub,
}
use fusotao.Support.Dispatch.{Result, ok, err, ◌>>=◌, ◌>>◌, ensure, ok_or, VerifierError}
use fusotao.Verifier.Types.{State, Config, fail}
use fusotao.Verifier.Leaf.{
  MerkleLeaf, unsatisfied, add128, sub128, try_get_account, try_get_orderpage, leaf_at, last_leaf,
  split_old_to_u128, split_new_to_u128, split_old_to_sum, split_new_to_sum,
}
use fusotao.Verifier.Clearing.{
  TakerMutation, ClearingResult, Order, ensure_leaves, ensure_symbol, Makers, ensure_authorized,
  ask_makers, ask_pages,
}

-- The deltas of the first leaf, and of the taker's two accounts.
pub record AskDeltas : Type 0 where
  pub ask_delta : ℕ
  pub bid_delta : ℕ
  pub tb_delta : ℕ
  pub tq_delta : ℕ
  pub taker : ℕ
  pub tqf1 : ℕ
  pub base_balance : ℕ
  pub quote_balance : ℕ

-- The best prices before and after.
pub record BestPrices : Type 0 where
  pub ask0 : ℕ
  pub bid0 : ℕ
  pub ask1 : ℕ
  pub bid1 : ℕ

unfoldable pub best_prices : Order → Result BestPrices
unfolding leaf_at split_old_to_u128 split_new_to_u128
best_prices o = do
  best_price ← leaf_at o.leaves (o.maker_accounts + 3)
  ensure_symbol o best_price
  let (ask0, bid0) = split_old_to_u128 best_price
  let (ask1, bid1) = split_new_to_u128 best_price
  ok (record { ask0 = ask0; bid0 = bid0; ask1 = ask1; bid1 = bid1 })

module _ (c : Config) where
  open c use {asset}

  -- From the order book's leaf to the check of `bid_delta` against `tb_delta`.
  unfoldable pub ask_taker : Order → State asset.Store → Result AskDeltas
  unfolding leaf_at split_old_to_u128 split_new_to_u128 try_get_account
  ask_taker o s = do
    book ← leaf_at o.leaves 0
    ensure_symbol o book
    let (ask0, bid0) = split_old_to_u128 book
    let (ask1, bid1) = split_new_to_u128 book
    let ask_delta = sub128 ask1 ask0
    let bid_delta = sub128 bid0 bid1
    taker_base ← leaf_at o.leaves (o.maker_accounts + 1)
    (bk, taker_b_id) ← try_get_account c.decode_account taker_base
    let (tba0, tbf0) = split_old_to_u128 taker_base
    old_base ← ok_or (checked_add tba0 tbf0) (fail VerifierError.overflow)
    ensure_authorized c o taker_b_id o.base old_base s
    let (tba1, tbf1) = split_new_to_u128 taker_base
    let tb_delta = sub128 (add128 tba0 tbf0) (add128 tba1 tbf1)
    taker_quote ← leaf_at o.leaves (o.maker_accounts + 2)
    (qk, taker_q_id) ← try_get_account c.decode_account taker_quote
    let (tqa0, tqf0) = split_old_to_u128 taker_quote
    ensure_authorized c o taker_q_id o.quote (add128 tqa0 tqf0) s
    let (tqa1, tqf1) = split_new_to_u128 taker_quote
    new_quote ← ok_or (checked_add tqa1 tqf1) (fail VerifierError.overflow)
    old_quote ← ok_or (checked_add tqa0 tqf0) (fail VerifierError.overflow)
    tq_delta ← ok_or (checked_sub new_quote old_quote) (fail VerifierError.overflow)
    ensure (bk == o.base && qk == o.quote) unsatisfied
    ensure (taker_b_id == taker_q_id) unsatisfied
    ensure (if not (ask_delta == 0) then o.amount == sub128 tba0 tba1 else tbf0 == tbf1) unsatisfied
    ensure (bid_delta == tb_delta) unsatisfied
    ok (record {
      ask_delta = ask_delta;
      bid_delta = bid_delta;
      tb_delta = tb_delta;
      tq_delta = tq_delta;
      taker = taker_b_id;
      tqf1 = tqf1;
      base_balance = add128 tba1 tbf1;
      quote_balance = add128 tqa1 tqf1;
    })

  -- The last page, where trading happened.
  unfoldable pub ask_traded : Order → AskDeltas → BestPrices → ℕ → ℕ → Result (Unit {0})
  unfolding leaf_at try_get_orderpage split_old_to_sum split_new_to_sum
  ask_traded o d best pre_best taken_bids = do
    page ← last_leaf o.leaves
    (b, (q, p)) ← try_get_orderpage page
    ensure (b == o.base && q == o.quote) unsatisfied
    ensure (ltb p pre_best && leb best.bid1 p) unsatisfied
    let before = split_old_to_sum page
    let now = split_new_to_sum page
    if not (d.ask_delta == 0)
        then (do
          ensure (best.ask1 == o.price && p == o.price) unsatisfied
          ensure (add128 (add128 taken_bids before) now == o.amount) unsatisfied)
        else (do
          ensure (best.ask1 == best.ask0) unsatisfied
          ensure (d.tb_delta == sub128 (add128 taken_bids before) now) unsatisfied)

  -- No trading: the best bid stands, and an order that is placed appears on its page.
  unfoldable pub ask_placed : Order → AskDeltas → BestPrices → Result (Unit {0})
  unfolding leaf_at try_get_orderpage split_old_to_sum split_new_to_sum
  ask_placed o d best = do
    ensure (best.bid1 == best.bid0) unsatisfied
    if not (d.ask_delta == 0)
        then (do
          page ← last_leaf o.leaves
          (b, (q, p)) ← try_get_orderpage page
          ensure (b == o.base && q == o.quote && ltb best.bid1 p) unsatisfied
          ensure (o.amount == sub128 (split_new_to_sum page) (split_old_to_sum page)) unsatisfied)
        else ok tt

  unfoldable pub ask_book : Order → AskDeltas → BestPrices → Result (Unit {0})
  unfolding ask_traded ask_placed ask_pages
  ask_book o d best =
      if not (d.bid_delta == 0)
      then (do
        ensure (ltb 0 o.pages && leb o.price best.bid0) unsatisfied
        (pre_best, taken_bids) ← ask_pages (o.pages - 1) 0 o (add128 best.bid0 1) 0
        ask_traded o d best pre_best taken_bids)
      else ask_placed o d best

  unfoldable pub verify_ask_limit : Order → State asset.Store → Result ClearingResult
  unfolding ask_taker ask_book ask_makers best_prices
  verify_ask_limit o s = do
    ensure_leaves o
    d ← ask_taker o s
    m ← ask_makers c (o.maker_accounts / 2) 0 o (record { base = 0; quote = 0; mutations = [] }) s
    let base_charged = c.mul_ceil o.maker_fee d.tb_delta
    ensure (add128 m.base base_charged == d.tb_delta) unsatisfied
    let quote_charged = c.mul_ceil o.taker_fee m.quote
    ensure (add128 d.tq_delta quote_charged == m.quote) unsatisfied
    let taker : TakerMutation = record {
      who = d.taker;
      unfilled_volume = d.tqf1;
      filled_volume = m.quote;
      filled_amount = d.tb_delta;
      base_balance = d.base_balance;
      quote_balance = d.quote_balance;
    }
    best ← best_prices o
    ask_book o d best
    ok (record {
      makers = m.mutations;
      taker = taker;
      base_fee = base_charged;
      quote_fee = quote_charged;
    })
