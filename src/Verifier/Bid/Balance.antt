-- ===== src/Verifier/Bid/Balance.antt =====
-- What a proof of a bid that passes shows of the amounts: nothing is lost between the makers, the
-- taker and the fees.
use fusotao.Prelude.{ℕ, ◌+◌, ◌≡◌}
use fusotao.Support.Dispatch.{ok}
use fusotao.Verifier.Types.{State, Config}
use fusotao.Verifier.Leaf.{
  MerkleLeaf, sub128, add128, leaf_at, split_old_to_u128, split_new_to_u128,
}
use fusotao.Verifier.Clearing.{Order}
use fusotao.Verifier.Conserved.{IsShown}
use fusotao.Verifier.Bid.{BidDeltas}

-- The base that the order book's leaf shows as taken out of it.
abbrev pub IsTaken : Order → ℕ → Type 0
IsTaken o amount =
    (book : MerkleLeaf) × (leaf_at o.leaves 0 ≡ ok book)
    × (amount ≡ sub128 (split_old_to_u128 book).0 (split_new_to_u128 book).0)

module _ (c : Config) where
  open c use {asset}

  -- What the taker's two leaves show, with what it gained in base and what it gave in quote.
  abbrev TakerShown : Order → BidDeltas → State asset.Store → Type 0
  TakerShown o d s =
      (b : ℕ) × (q : ℕ) × IsShown c o (o.maker_accounts + 1) d.taker o.base b (add128 d.tba1 d.tbf1)
        s
      × IsShown c o (o.maker_accounts + 2) d.taker o.quote q (add128 d.tqa1 d.tqf1) s
      × (d.tb_delta ≡ sub128 (add128 d.tba1 d.tbf1) b)
      × (add128 d.tqa1 d.tqf1 + d.tq_delta ≡ q)
      × IsTaken o d.ask_delta
