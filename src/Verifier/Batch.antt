-- ===== src/Verifier/Batch.antt =====
-- `verify_and_update`, `verify_batch` and the dispatchables that take proofs:
-- pallets/verifier/src/lib.rs.
pub mod Root
use fusotao.Prelude.{
  ℕ, not, ◌&&◌, Option, none, some, List, [], ◌∷◌, map, ◌==◌, if◌then◌else◌, nat_eq,
}
use fusotao.Support.Storage.{StorageMap, get, insert}
use fusotao.Support.Dispatch.{
  Result, ok, err, ◌>>=◌, ◌>>◌, ensure, ok_or, DispatchError, VerifierError, Origin, ensure_signed,
}
use fusotao.Support.XToken.{Bytes}
use fusotao.Support.Constants.{dominator_active}
use fusotao.Verifier.Types.{Dominator, DominatorSetting, Config, fail}
use fusotao.Verifier.Staking.{current_season}
use fusotao.Verifier.Leaf.{MerkleLeaf, unsatisfied, add128}
use fusotao.Verifier.Clearing.{Order}
use fusotao.Verifier.Ask.{verify_ask_limit}
use fusotao.Verifier.Bid.{verify_bid_limit}
use fusotao.Verifier.Transfers.{verify_cancel}
use fusotao.Verifier.Update.{
  CommandV2, ask_limit, bid_limit, cancel, transfer_out, transfer_in, reject_transfer_out,
  reject_transfer_in, ProofV2, Trade, Outside, World, limit_order, transfer_out_of, transfer_in_to,
  reject_out, reject_in,
}

-- The totals of a batch, by base token: `*b += trade.amount; *q += trade.vol`.
unfoldable pub add_trade : Trade → StorageMap ℕ (ℕ × ℕ) → StorageMap ℕ (ℕ × ℕ)
add_trade t incr =
    if not (t.amount == 0) && not (t.vol == 0)
    then elim (get t.token_id incr) [
      | none ↦ insert t.token_id (t.amount, t.vol) incr
      | some b ↦ insert t.token_id (add128 b.0 t.amount, add128 b.1 t.vol) incr
    ]
    else incr

module _ (c : Config) (x : Outside c) where
  open c use {asset}
  open x use {Others}

  abbrev pub leaves_old : List MerkleLeaf → List (Bytes × Bytes)
  leaves_old leaves = map (λ v. (x.hashing v.key, v.old_v)) leaves

  abbrev pub leaves_new : List MerkleLeaf → List (Bytes × Bytes)
  leaves_new leaves = map (λ v. (x.hashing v.key, v.new_v)) leaves

  -- Both states of the leaves stand in their trees.
  unfoldable pub verify_roots : Bytes → ProofV2 → Result (Unit {0})
  verify_roots known_root proof = do
    old ←
        ok_or (x.verify_leaves proof.merkle_proof known_root (leaves_old proof.leaves)) unsatisfied
    ensure old unsatisfied
    new ←
        ok_or (x.verify_leaves proof.merkle_proof proof.root (leaves_new proof.leaves)) unsatisfied
    ensure new unsatisfied

  -- `Dominators::<T>::mutate`: the dominator's root and sequence move to the proof's.
  unfoldable pub step_forward : ℕ → ℕ → ProofV2 → World c x → Result (World c x)
  step_forward now dominator_id proof (s, others) = do
    d ← ok_or (get dominator_id s.dominators) DispatchError.panicked
    let d' : Dominator = record d { merkle_root = proof.root; sequence = (proof.event_id, now) }
    ok (record s { dominators = insert dominator_id d' s.dominators }, others)

  abbrev pub no_trade : Bytes → Trade
  no_trade root = record { token_id = 0; root = root; amount = 0; vol = 0 }

  abbrev pub order_of : ℕ → ProofV2 → ℕ → ℕ → ℕ → ℕ → ℕ → ℕ → Order
  order_of dominator proof price amount maker_fee taker_fee base quote = record {
    price = price;
    amount = amount;
    maker_fee = maker_fee;
    taker_fee = taker_fee;
    base = base;
    quote = quote;
    maker_accounts = proof.maker_account_delta;
    pages = proof.maker_page_delta;
    dominator = dominator;
    leaves = proof.leaves;
  }

  -- A command that is carried out moves the dominator on; one that is rejected does not.
  unfoldable pub execute :
      CommandV2 → ℕ → ℕ → ℕ → ℕ → Bytes → ProofV2 → World c x → Result (Trade × World c x)
  unfolding limit_order verify_ask_limit verify_bid_limit verify_cancel transfer_out_of
      transfer_in_to reject_out reject_in step_forward
  execute (ask_limit price amount maker_fee taker_fee base quote broker) now season dominator
        beneficiary known_root proof w =
      do
        let o = order_of dominator proof price amount maker_fee taker_fee base quote
        (cr, w₁) ← limit_order c x (verify_ask_limit c) now season dominator beneficiary o broker w
        w₂ ← step_forward now dominator proof w₁
        let trade : Trade = record {
          token_id = base;
          root = proof.root;
          amount = cr.taker.filled_amount;
          vol = cr.taker.filled_volume;
        }
        ok (trade, w₂)
  execute (bid_limit price amount maker_fee taker_fee base quote broker) now season dominator
        beneficiary known_root proof w =
      do
        let o = order_of dominator proof price amount maker_fee taker_fee base quote
        (cr, w₁) ← limit_order c x (verify_bid_limit c) now season dominator beneficiary o broker w
        w₂ ← step_forward now dominator proof w₁
        let trade : Trade = record {
          token_id = base;
          root = proof.root;
          amount = cr.taker.filled_amount;
          vol = cr.taker.filled_volume;
        }
        ok (trade, w₂)
  execute (cancel base quote) now season dominator beneficiary known_root proof (s, others) = do
    unfilled ← verify_cancel c base quote proof.user_id proof.leaves
    let others' : Others = elim (x.remove_liquidity proof.user_id (base, quote) unfilled others) [
      | err e ↦ others
      | ok o ↦ o
    ]
    w ← step_forward now dominator proof (s, others')
    ok (no_trade proof.root, w)
  execute (transfer_out currency amount) now season dominator beneficiary known_root proof w = do
    w₁ ← transfer_out_of c x dominator proof.user_id currency amount proof.leaves w
    w₂ ← step_forward now dominator proof w₁
    ok (no_trade proof.root, w₂)
  execute (transfer_in currency amount) now season dominator beneficiary known_root proof
        (s, others) =
      do
        s₁ ← transfer_in_to c x dominator proof.user_id currency amount proof.leaves s
        w ← step_forward now dominator proof (s₁, others)
        ok (no_trade proof.root, w)
  execute (reject_transfer_out currency amount) now season dominator beneficiary known_root proof
        (s, others) =
      do
        s₁ ← reject_out c x dominator proof.user_id currency amount proof.leaves s
        ok (no_trade known_root, (s₁, others))
  execute reject_transfer_in now season dominator beneficiary known_root proof (s, others) = do
    s₁ ← reject_in c x dominator proof.user_id s
    ok (no_trade known_root, (s₁, others))

  unfoldable pub verify_and_update :
      ℕ → ℕ → ℕ → Bytes → ℕ → ProofV2 → World c x → Result (Trade × World c x)
  unfolding verify_roots execute current_season
  verify_and_update now dominator beneficiary known_root claim_at proof w = do
    verify_roots known_root proof
    execute proof.cmd now (current_season c now claim_at) dominator beneficiary known_root proof w

  -- `for proof in proofs`: each proof starts from the root that the one before it has left.
  unfoldable pub verify_proofs :
      List ProofV2
      → ℕ
      → ℕ
      → ℕ
      → Bytes
      → ℕ
      → StorageMap ℕ (ℕ × ℕ)
      → World c x
      → Result (StorageMap ℕ (ℕ × ℕ) × World c x)
  unfolding verify_and_update add_trade
  verify_proofs [] now dominator beneficiary known_root claim_at incr w = ok (incr, w)
  verify_proofs (proof ∷ proofs) now dominator beneficiary known_root claim_at incr w = do
    (trade, w') ← verify_and_update now dominator beneficiary known_root claim_at proof w
    verify_proofs proofs now dominator beneficiary trade.root claim_at (add_trade trade incr) w'

  unfoldable pub set_prices : ℕ → StorageMap ℕ (ℕ × ℕ) → Others → Others
  set_prices now [] others = others
  set_prices now ((token, (amount, vol)) ∷ rest) others =
      set_prices now rest (x.set_price token amount vol now others)

  unfoldable pub verify_batch :
      ℕ → ℕ → ℕ → Dominator → List ProofV2 → World c x → Result (World c x)
  unfolding verify_proofs set_prices
  verify_batch now dominator beneficiary d proofs w = do
    (incr, w') ← verify_proofs proofs now dominator beneficiary d.merkle_root d.start_from [] w
    ok (w'.0, set_prices now incr w'.1)

  -- `dominator_settings(..).map(..).flatten().unwrap_or(dominator_id)`
  abbrev pub beneficiary_of : ℕ → Option DominatorSetting → ℕ
  beneficiary_of dominator none = dominator
  beneficiary_of dominator (some d) = elim d.beneficiary [ none ↦ dominator | some b ↦ b ]

  unfoldable pub verify_v2 : ℕ → Origin → List ProofV2 → World c x → Result (World c x)
  unfolding verify_batch
  verify_v2 now origin proofs w = do
    dominator_id ← ensure_signed origin
    d ← ok_or (get dominator_id w.0.dominators) (fail VerifierError.dominator_not_found)
    ensure (d.status == dominator_active) (fail VerifierError.dominator_inactive)
    let beneficiary = beneficiary_of dominator_id (get dominator_id w.0.dominator_settings)
    verify_batch now dominator_id beneficiary d proofs w
