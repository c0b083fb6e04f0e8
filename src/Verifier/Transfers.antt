-- ===== src/Verifier/Transfers.antt =====
-- The proofs of transfers and cancellations, and the check of the fees: pallets/verifier/src/lib.rs.
use fusotao.Prelude.{ℕ, not, ◌&&◌, ◌||◌, List, ◌==◌, ltb, leb, if◌then◌else◌, length}
use fusotao.Support.Dispatch.{Result, ok, ◌>>=◌, ◌>>◌, ensure, VerifierError}
use fusotao.Verifier.Types.{Config, fail}
use fusotao.Verifier.Leaf.{
  MerkleLeaf, unsatisfied, add128, sub128, try_get_account, try_get_symbol, try_get_orderpage,
  leaf_at, split_old_to_u128, split_new_to_u128, split_old_to_sum, split_new_to_sum,
}

module _ (c : Config) where
  unfoldable pub check_fee : ℕ → ℕ → Result (Unit {0})
  check_fee taker_fee maker_fee =
      ensure (leb maker_fee c.max_maker_fee && leb taker_fee c.max_taker_fee)
        (fail VerifierError.fees_too_high)

  -- `let (c, id) = leaf.try_get_account()?` with the check of both.
  abbrev pub ensure_account : ℕ → ℕ → MerkleLeaf → Result (Unit {0})
  unfolding try_get_account
  ensure_account currency account leaf = do
    (token, id) ← try_get_account c.decode_account leaf
    ensure (currency == token && account == id) unsatisfied

  unfoldable pub verify_transfer_in : ℕ → ℕ → ℕ → List MerkleLeaf → Result (Unit {0})
  unfolding leaf_at split_old_to_u128 split_new_to_u128
  verify_transfer_in currency amount account leaves = do
    ensure (length leaves == 1) unsatisfied
    leaf ← leaf_at leaves 0
    let (a0, f0) = split_old_to_u128 leaf
    let (a1, f1) = split_new_to_u128 leaf
    ensure (sub128 a1 a0 == amount) unsatisfied
    ensure (f1 == f0) unsatisfied
    ensure_account currency account leaf

  unfoldable pub verify_transfer_out : ℕ → ℕ → ℕ → List MerkleLeaf → Result (Unit {0})
  unfolding leaf_at split_old_to_u128 split_new_to_u128
  verify_transfer_out currency amount account leaves = do
    ensure (length leaves == 1) unsatisfied
    leaf ← leaf_at leaves 0
    let (a0, f0) = split_old_to_u128 leaf
    let (a1, f1) = split_new_to_u128 leaf
    ensure (sub128 a0 a1 == amount) unsatisfied
    ensure (f1 == f0) unsatisfied
    ensure_account currency account leaf

  unfoldable pub verify_reject_transfer_out : ℕ → ℕ → ℕ → List MerkleLeaf → Result (Unit {0})
  unfolding leaf_at split_old_to_u128
  verify_reject_transfer_out currency amount account leaves = do
    ensure (length leaves == 1) unsatisfied
    leaf ← leaf_at leaves 0
    let (a0, _) = split_old_to_u128 leaf
    ensure (ltb a0 amount) unsatisfied
    ensure_account currency account leaf

  -- An account of `verify_cancel`: what it holds in all has not changed.
  unfoldable pub cancel_account : ℕ → ℕ → MerkleLeaf → Result (Unit {0})
  unfolding try_get_account split_old_to_u128 split_new_to_u128
  cancel_account currency account leaf = do
    (token, id) ← try_get_account c.decode_account leaf
    ensure (token == currency) unsatisfied
    ensure (account == id) unsatisfied
    let (a0, f0) = split_old_to_u128 leaf
    let (a1, f1) = split_new_to_u128 leaf
    ensure (add128 a0 f0 == add128 a1 f1) unsatisfied

  -- `bit_and` is `&` on `u128`.
  unfoldable pub verify_cancel : ℕ → ℕ → ℕ → List MerkleLeaf → Result ℕ
  unfolding leaf_at try_get_symbol split_old_to_u128 split_new_to_u128 cancel_account
      try_get_orderpage split_old_to_sum split_new_to_sum
  verify_cancel base quote account leaves = do
    ensure (length leaves == 5) unsatisfied
    book ← leaf_at leaves 0
    (b, q) ← try_get_symbol book
    ensure (b == base && q == quote) unsatisfied
    let (ask0, bid0) = split_old_to_u128 book
    let (ask1, bid1) = split_new_to_u128 book
    let ask_delta = sub128 ask0 ask1
    let bid_delta = sub128 bid0 bid1
    ensure (not (add128 ask_delta bid_delta == 0)) unsatisfied
    ensure (c.bit_and ask_delta bid_delta == 0) unsatisfied
    base_leaf ← leaf_at leaves 1
    cancel_account base account base_leaf
    quote_leaf ← leaf_at leaves 2
    cancel_account quote account quote_leaf
    best ← leaf_at leaves 3
    let (best_ask0, best_bid0) = split_old_to_u128 best
    page ← leaf_at leaves 4
    (b', (q', cancel_at)) ← try_get_orderpage page
    ensure (b' == base && q' == quote && (leb best_ask0 cancel_at || leb cancel_at best_bid0))
        unsatisfied
    let delta = sub128 (split_old_to_sum page) (split_new_to_sum page)
    if leb best_ask0 cancel_at && not (best_ask0 == 0)
        then ensure (ask_delta == delta) unsatisfied
        else ensure (bid_delta == delta) unsatisfied
    ok delta
