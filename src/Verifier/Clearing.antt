-- ===== src/Verifier/Clearing.antt =====
-- What the two kinds of orders share in pallets/verifier/src/lib.rs: the result of a clearing, the
-- test of an account's balances against its authorised amount, and the two loops' makers and pages.
use fusotao.Prelude.{
  ℕ, zero, suc, ◌+◌, ◌*◌, ◌%◌, ◌&&◌, List, [], ◌∷◌, ◌++◌, ◌==◌, ltb, leb, length, checked_add,
  checked_sub,
}
use fusotao.Support.Dispatch.{Result, ok, ◌>>=◌, ◌>>◌, ensure, ok_or, VerifierError}
use fusotao.Verifier.Types.{State, Config, fail}
use fusotao.Verifier.Reserves.{has_authorized_exactly_on}
use fusotao.Verifier.Leaf.{
  MerkleLeaf, unsatisfied, add128, sub128, try_get_account, try_get_symbol, try_get_orderpage,
  leaf_at, split_old_to_sum, split_new_to_sum,
}

pub record MakerMutation : Type 0 where
  pub who : ℕ
  pub filled_volume : ℕ
  pub base_balance : ℕ
  pub quote_balance : ℕ

pub record TakerMutation : Type 0 where
  pub who : ℕ
  pub unfilled_volume : ℕ
  pub filled_volume : ℕ
  pub filled_amount : ℕ
  pub base_balance : ℕ
  pub quote_balance : ℕ

pub record ClearingResult : Type 0 where
  pub makers : List MakerMutation
  pub taker : TakerMutation
  pub base_fee : ℕ
  pub quote_fee : ℕ

-- The arguments of `verify_ask_limit` and `verify_bid_limit`; the fees are parts of a million.
pub record Order : Type 0 where
  pub price : ℕ
  pub amount : ℕ
  pub maker_fee : ℕ
  pub taker_fee : ℕ
  pub base : ℕ
  pub quote : ℕ
  pub maker_accounts : ℕ
  pub pages : ℕ
  pub dominator : ℕ
  pub leaves : List MerkleLeaf

-- `ensure!(leaves.len() == leaves_count)` and `ensure!(maker_accounts % 2 == 0)`; the count is a `u8`.
abbrev pub ensure_leaves : Order → Result (Unit {0})
ensure_leaves o = do
  ensure (length o.leaves == (4 + o.maker_accounts + o.pages) % 256) unsatisfied
  ensure (o.maker_accounts % 2 == 0) unsatisfied

abbrev pub ensure_symbol : Order → MerkleLeaf → Result (Unit {0})
unfolding try_get_symbol
ensure_symbol o leaf = do
  (b, q) ← try_get_symbol leaf
  ensure (b == o.base && q == o.quote) unsatisfied

-- What the maker accounts have changed, read in turn: what they gave, what they took, and their new
-- balances.
pub record Makers : Type 0 where
  pub base : ℕ
  pub quote : ℕ
  pub mutations : List MakerMutation

module _ (c : Config) where
  open c use {asset}

  abbrev pub ensure_authorized : Order → ℕ → ℕ → ℕ → State asset.Store → Result (Unit {0})
  unfolding has_authorized_exactly_on
  ensure_authorized o who token amount s =
      ensure (has_authorized_exactly_on c who token amount o.dominator s) unsatisfied

  -- One maker of an ask: base comes in, quote goes out.
  unfoldable pub ask_maker : Order → ℕ → State asset.Store → Result (ℕ × (ℕ × MakerMutation))
  unfolding try_get_account split_old_to_sum split_new_to_sum leaf_at
  ask_maker o i s = do
    maker_base ← leaf_at o.leaves (i * 2 + 1)
    (bk, maker_b_id) ← try_get_account c.decode_account maker_base
    let mb0 = split_old_to_sum maker_base
    ensure_authorized o maker_b_id o.base mb0 s
    let mb1 = split_new_to_sum maker_base
    let base_incr = sub128 mb1 mb0
    maker_quote ← leaf_at o.leaves (i * 2 + 2)
    (qk, maker_q_id) ← try_get_account c.decode_account maker_quote
    ensure (o.base == bk && o.quote == qk) unsatisfied
    let mq0 = split_old_to_sum maker_quote
    ensure_authorized o maker_q_id o.quote mq0 s
    let mq1 = split_new_to_sum maker_quote
    let quote_decr = sub128 mq0 mq1
    ensure (maker_b_id == maker_q_id) unsatisfied
    let mutation : MakerMutation = record {
      who = maker_q_id;
      filled_volume = quote_decr;
      base_balance = mb1;
      quote_balance = mq1;
    }
    ok (base_incr, (quote_decr, mutation))

  -- `for i in 0..maker_accounts / 2`, from `i` on with `n` to go.
  unfoldable pub ask_makers : ℕ → ℕ → Order → Makers → State asset.Store → Result Makers
  unfolding ask_maker
  ask_makers zero i o acc s = ok acc
  ask_makers (suc n) i o acc s = do
    (base, (quote, mutation)) ← ask_maker o i s
    ask_makers n (i + 1) o
        (record {
          base = add128 acc.base base;
          quote = add128 acc.quote quote;
          mutations = acc.mutations ++ (mutation ∷ []);
        })
        s

  -- One maker of a bid: base goes out, quote comes in.
  unfoldable pub bid_maker : Order → ℕ → State asset.Store → Result (ℕ × (ℕ × MakerMutation))
  unfolding try_get_account split_old_to_sum split_new_to_sum leaf_at
  bid_maker o i s = do
    maker_base ← leaf_at o.leaves (i * 2 + 1)
    (bk, maker_b_id) ← try_get_account c.decode_account maker_base
    let mb0 = split_old_to_sum maker_base
    ensure_authorized o maker_b_id o.base mb0 s
    let mb1 = split_new_to_sum maker_base
    let base_decr = sub128 mb0 mb1
    maker_quote ← leaf_at o.leaves (i * 2 + 2)
    (qk, maker_q_id) ← try_get_account c.decode_account maker_quote
    ensure (o.quote == qk && o.base == bk) unsatisfied
    ensure (maker_b_id == maker_q_id) unsatisfied
    let mq0 = split_old_to_sum maker_quote
    ensure_authorized o maker_q_id o.quote mq0 s
    let mq1 = split_new_to_sum maker_quote
    quote_incr ← ok_or (checked_sub mq1 mq0) (fail VerifierError.overflow)
    let mutation : MakerMutation = record {
      who = maker_b_id;
      filled_volume = quote_incr;
      base_balance = mb1;
      quote_balance = mq1;
    }
    ok (base_decr, (quote_incr, mutation))

  unfoldable pub bid_makers : ℕ → ℕ → Order → Makers → State asset.Store → Result Makers
  unfolding bid_maker
  bid_makers zero i o acc s = ok acc
  bid_makers (suc n) i o acc s = do
    (base, (quote, mutation)) ← bid_maker o i s
    quote_sum ← ok_or (checked_add acc.quote quote) (fail VerifierError.overflow)
    bid_makers n (i + 1) o
        (record {
          base = add128 acc.base base;
          quote = quote_sum;
          mutations = acc.mutations ++ (mutation ∷ []);
        })
        s

-- `for i in 0..pages - 1` of an ask: every page but the last is emptied, at falling prices.
unfoldable pub ask_pages : ℕ → ℕ → Order → ℕ → ℕ → Result (ℕ × ℕ)
unfolding try_get_orderpage split_old_to_sum split_new_to_sum leaf_at
ask_pages zero i o pre_best taken_bids = ok (pre_best, taken_bids)
ask_pages (suc n) i o pre_best taken_bids = do
  page ← leaf_at o.leaves (o.maker_accounts + 4 + i)
  (b, (q, p)) ← try_get_orderpage page
  ensure (b == o.base && q == o.quote) unsatisfied
  ensure (ltb p pre_best) unsatisfied
  ensure (split_new_to_sum page == 0) unsatisfied
  ask_pages n (i + 1) o p (add128 taken_bids (split_old_to_sum page))

-- The same of a bid, at prices that do not fall.
unfoldable pub bid_pages : ℕ → ℕ → Order → ℕ → ℕ → Result (ℕ × ℕ)
unfolding try_get_orderpage split_old_to_sum split_new_to_sum leaf_at
bid_pages zero i o pre_best taken_asks = ok (pre_best, taken_asks)
bid_pages (suc n) i o pre_best taken_asks = do
  page ← leaf_at o.leaves (o.maker_accounts + 4 + i)
  (b, (q, p)) ← try_get_orderpage page
  ensure (b == o.base && q == o.quote) unsatisfied
  ensure (leb pre_best p) unsatisfied
  ensure (split_new_to_sum page == 0) unsatisfied
  bid_pages n (i + 1) o p (add128 taken_asks (split_old_to_sum page))
