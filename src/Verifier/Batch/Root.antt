-- ===== src/Verifier/Batch/Root.antt =====
-- The root that a dominator is known by, through `verify_and_update`.
use fusotao.Prelude.{
  ℕ, ◌≡◌, refl, ap, ◌∙◌, map, true, Bool-cases, Option-cases, inl, inr, some, nat_eq, pair_eq,
  arith,
}
use fusotao.Support.Storage.{get, insert, get-insert_self}
use fusotao.Support.Dispatch.{
  Result, ok, err, ◌>>=◌, Result-cases, bind-then, ok_or-then, ensure-then,
}
use fusotao.Support.XToken.{Bytes}
use fusotao.Verifier.Types.{Dominator, State, Config}
use fusotao.Verifier.Staking.{current_season}
use fusotao.Verifier.Leaf.{MerkleLeaf}
use fusotao.Verifier.Ask.{verify_ask_limit}
use fusotao.Verifier.Bid.{verify_bid_limit}
use fusotao.Verifier.Transfers.{verify_cancel}
use fusotao.Verifier.Update.{
  CommandV2, ask_limit, bid_limit, cancel, transfer_out, transfer_in, reject_transfer_out,
  reject_transfer_in, ProofV2, Trade, Outside, World, limit_order, transfer_out_of, transfer_in_to,
  reject_out, reject_in,
}
use fusotao.Verifier.Batch.{
  step_forward, no_trade, order_of, execute, verify_roots, verify_and_update,
}

-- The dominator stands in the books with this root.
abbrev pub HasRoot : {Store : Type 0} → ℕ → Bytes → State Store → Type 0
HasRoot id root s = (d : Dominator) × (get id s.dominators ≡ some d) × (d.merkle_root ≡ root)

module _ (c : Config) (x : Outside c) where
  open c use {asset}

  step_forward-HasRoot :
      (now dominator : ℕ) (proof : ProofV2) (w w' : World c x)
      → step_forward c x now dominator proof w ≡ ok w'
      → HasRoot dominator proof.root w'.0
  unfolding step_forward
  step_forward-HasRoot now dominator proof (s, others) w' h =
      elim (Option-cases (get dominator s.dominators)) [
        | inl missing ↦ ground arith
        | inr (d, found) ↦
            let d' : Dominator = record d {
              merkle_root = proof.root;
              sequence = (proof.event_id, now);
            } in
            let e : w' ≡ (record s { dominators = insert dominator d' s.dominators }, others) =
              ground arith in
            rw e (d', get-insert_self dominator d' s.dominators, refl)
      ]

  abbrev advance : ℕ → ℕ → ProofV2 → (World c x → Trade) → World c x → Result (Trade × World c x)
  advance now dominator proof t w = step_forward c x now dominator proof w >>= λ w₂. ok (t w₂, w₂)

  -- A command ends with a step forward, and its trade carries the proof's root.
  advanced-HasRoot :
      (now dominator : ℕ) (proof : ProofV2) (r : Result (World c x)) (t : World c x → Trade)
      (trade : Trade) (w' : World c x)
      → ((w : World c x) → (t w).root ≡ proof.root)
      → (r >>= advance now dominator proof t) ≡ ok (trade, w')
      → HasRoot dominator trade.root w'.0
  advanced-HasRoot now dominator proof (err e) t trade w' k h = ground arith
  advanced-HasRoot now dominator proof (ok w) t trade w' k h =
      elim (Result-cases (step_forward c x now dominator proof w)) [
        | inl (e, failed) ↦ ground arith
        | inr (w₂, stepped) ↦
            let same : w' ≡ w₂ = ground arith in
            let told : trade ≡ t w₂ = ground arith in
            let root : trade.root ≡ proof.root = rw (told, k w₂) refl in
            rw (same, root) (step_forward-HasRoot now dominator proof w w₂ stepped)
      ]

  reject_out-dominators :
      (dominator user currency amount : ℕ) (leaves : _) (s s' : State asset.Store)
      → reject_out c x dominator user currency amount leaves s ≡ ok s'
      → s'.dominators ≡ s.dominators
  unfolding reject_out
  reject_out-dominators dominator user currency amount leaves s s' h = ground arith

  reject_in-dominators :
      (dominator user : ℕ) (s s' : State asset.Store)
      → reject_in c x dominator user s ≡ ok s'
      → s'.dominators ≡ s.dominators
  unfolding reject_in
  reject_in-dominators dominator user s s' h = ground arith

  -- Where the dominator is known by the root that its proof starts from, it is known by the root of
  -- the trade when the proof's command has been carried out: the proof's own root, or for a rejection
  -- the root from before.
  pub execute-HasRoot :
      (cmd : CommandV2) (now season dominator beneficiary : ℕ) (known_root : Bytes)
      (proof : ProofV2) (trade : Trade) (w w' : World c x)
      → HasRoot dominator known_root w.0
      → execute c x cmd now season dominator beneficiary known_root proof w ≡ ok (trade, w')
      → HasRoot dominator trade.root w'.0
  unfolding execute
  execute-HasRoot (transfer_out currency amount) now season dominator beneficiary known_root proof
        trade w w' b h =
      advanced-HasRoot now dominator proof
        (transfer_out_of c x dominator proof.user_id currency amount proof.leaves w)
        (λ w. no_trade c x proof.root) trade w' (λ w. refl) h
  execute-HasRoot (transfer_in currency amount) now season dominator beneficiary known_root proof
        trade (s, others) w' b h =
      elim (Result-cases
        (transfer_in_to c x dominator proof.user_id currency amount proof.leaves s)) [
          | inl (e, failed) ↦ ground arith
          | inr (s₁, done) ↦
              advanced-HasRoot now dominator proof (ok (s₁, others)) (λ w. no_trade c x proof.root)
                trade w' (λ w. refl) (ground arith)
        ]
  execute-HasRoot (cancel base quote) now season dominator beneficiary known_root proof trade
        (s, others) w' b h =
      elim (Result-cases (verify_cancel c base quote proof.user_id proof.leaves)) [
        | inl (e, failed) ↦ ground arith
        | inr (unfilled, done) ↦
            elim (Result-cases (x.remove_liquidity proof.user_id (base, quote) unfilled others)) [
              | inl (e, failed) ↦
                  advanced-HasRoot now dominator proof (ok (s, others))
                    (λ w. no_trade c x proof.root) trade w' (λ w. refl) (ground arith)
              | inr (others', removed) ↦
                  advanced-HasRoot now dominator proof (ok (s, others'))
                    (λ w. no_trade c x proof.root) trade w' (λ w. refl) (ground arith)
            ]
      ]
  execute-HasRoot (ask_limit price amount maker_fee taker_fee base quote broker) now season
        dominator beneficiary known_root proof trade w w' b h =
      let o = order_of c x dominator proof price amount maker_fee taker_fee base quote in
      elim (Result-cases
        (limit_order c x (verify_ask_limit c) now season dominator beneficiary o broker w)) [
          | inl (e, failed) ↦ ground arith
          | inr ((cr, w₁), done) ↦
              let t : Trade = record {
                token_id = base;
                root = proof.root;
                amount = cr.taker.filled_amount;
                vol = cr.taker.filled_volume;
              } in
              advanced-HasRoot now dominator proof (ok w₁) (λ w. t) trade w' (λ w. refl)
                (ground arith)
        ]
  execute-HasRoot (bid_limit price amount maker_fee taker_fee base quote broker) now season
        dominator beneficiary known_root proof trade w w' b h =
      let o = order_of c x dominator proof price amount maker_fee taker_fee base quote in
      elim (Result-cases
        (limit_order c x (verify_bid_limit c) now season dominator beneficiary o broker w)) [
          | inl (e, failed) ↦ ground arith
          | inr ((cr, w₁), done) ↦
              let t : Trade = record {
                token_id = base;
                root = proof.root;
                amount = cr.taker.filled_amount;
                vol = cr.taker.filled_volume;
              } in
              advanced-HasRoot now dominator proof (ok w₁) (λ w. t) trade w' (λ w. refl)
                (ground arith)
        ]
  execute-HasRoot (reject_transfer_out currency amount) now season dominator beneficiary known_root
        proof trade (s, others) w' (d, found, root) h =
      elim (Result-cases (reject_out c x dominator proof.user_id currency amount proof.leaves s)) [
        | inl (e, failed) ↦ ground arith
        | inr (s₁, done) ↦
            let kept =
              reject_out-dominators dominator proof.user_id currency amount proof.leaves s s₁
                done in
            (d, ground (arith, kept), ground arith)
      ]
  execute-HasRoot reject_transfer_in now season dominator beneficiary known_root proof trade
        (s, others) w' (d, found, root) h =
      elim (Result-cases (reject_in c x dominator proof.user_id s)) [
        | inl (e, failed) ↦ ground arith
        | inr (s₁, done) ↦
            let kept = reject_in-dominators dominator proof.user_id s s₁ done in
            (d, ground (arith, kept), ground arith)
      ]

  -- The leaves of a proof, each with the value that `value_of` names, stand in the tree of this root: so
  -- says the sparse Merkle tree that the runtime supplies, of the leaves under their hashed keys.
  abbrev pub StandIn : Bytes → (MerkleLeaf → Bytes) → ProofV2 → Type 0
  StandIn root value_of proof =
      x.verify_leaves proof.merkle_proof root
        (map (λ leaf. (x.hashing leaf.key, value_of leaf)) proof.leaves)
      ≡ some true

  verify_roots-StandIn :
      (known_root : Bytes) (proof : ProofV2) (u : Unit {0})
      → verify_roots c x known_root proof ≡ ok u
      → StandIn known_root (λ leaf. leaf.old_v) proof
        × StandIn proof.root (λ leaf. leaf.new_v) proof
  unfolding verify_roots
  verify_roots-StandIn known_root proof u h =
      ok_or-then
        (x.verify_leaves proof.merkle_proof known_root
          (map (λ leaf. (x.hashing leaf.key, leaf.old_v)) proof.leaves))
        _ _ _ h
        λ old e h0. ensure-then old _ _ _ h0 λ old_holds h1.
          ok_or-then
            (x.verify_leaves proof.merkle_proof proof.root
              (map (λ leaf. (x.hashing leaf.key, leaf.new_v)) proof.leaves))
            _ _ _ h1
            λ new e' h2. elim (Bool-cases new) [
              | inl new_holds ↦ (e ∙ ap (λ b. some b) old_holds, e' ∙ ap (λ b. some b) new_holds)
              | inr fails ↦ absurd (ground arith)
            ]

  -- An update that succeeds has shown the old values of its leaves in the tree of the known root and
  -- the new ones in the tree of the proof's own root, each under its hashed key. Where the dominator was
  -- known by the first root, it is known by the root of the trade then, from which the next proof
  -- starts.
  pub verify_and_update-HasRoot :
      (now dominator beneficiary : ℕ) (known_root : Bytes) (claim_at : ℕ) (proof : ProofV2)
      (trade : Trade) (w w' : World c x)
      → HasRoot dominator known_root w.0
      → verify_and_update c x now dominator beneficiary known_root claim_at proof w ≡ ok (trade, w')
      → StandIn known_root (λ leaf. leaf.old_v) proof
        × StandIn proof.root (λ leaf. leaf.new_v) proof
        × HasRoot dominator trade.root w'.0
  unfolding verify_and_update
  verify_and_update-HasRoot now dominator beneficiary known_root claim_at proof trade w w' b h =
      bind-then (verify_roots c x known_root proof) _ _ h λ u shown h0.
        let (before, later) = verify_roots-StandIn known_root proof u shown in
        (
          before,
          later,
          execute-HasRoot proof.cmd now (current_season c now claim_at) dominator beneficiary
              known_root proof trade w w' b h0,
        )
