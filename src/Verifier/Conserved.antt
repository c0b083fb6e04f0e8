-- ===== src/Verifier/Conserved.antt =====
-- What the leaves of an order in pallets/verifier show of its accounts, and what it is that a clearing
-- loses nothing.
use fusotao.Prelude.{
  ℕ, ◌+◌, ◌*◌, ◌/◌, ◌%◌, ◌<◌, ◌≡◌, refl, true, List, [], ◌∷◌, arith, some, checked_add, checked_sub,
  length, u128_mod,
}
use fusotao.Support.Dispatch.{ok, ensure-ok}
use fusotao.Verifier.Types.{State, Config}
use fusotao.Verifier.Reserves.{has_authorized_exactly_on}
use fusotao.Verifier.Leaf.{
  MerkleLeaf, add128, sub128, try_get_account, leaf_at, split_old_to_sum, split_new_to_sum,
  unsatisfied,
}
use fusotao.Verifier.Clearing.{ensure_authorized, MakerMutation, ClearingResult, Order}

-- What a clearing leaves the makers of one token in all.
unfoldable pub total : (MakerMutation → ℕ) → List MakerMutation → ℕ
total f [] = 0
total f (m ∷ ms) = f m + total f ms

-- Sums modulo 2 ^ 128 with one more account, which has gained `d` or has lost `d`.
pub gain :
    (old new d b' t t0 t1 : ℕ)
    → old < u128_mod
    → d ≡ sub128 new old
    → (b' + t1) % u128_mod ≡ (t + add128 t0 d) % u128_mod
    → (old + b' + t1) % u128_mod ≡ (new + t + t0) % u128_mod
gain old new d b' t t0 t1 small e h = omega arith

pub loss :
    (old new d b' t t0 t1 : ℕ)
    → new < u128_mod
    → d ≡ sub128 old new
    → (b' + add128 t0 d) % u128_mod ≡ (t + t1) % u128_mod
    → (old + b' + t0) % u128_mod ≡ (new + t + t1) % u128_mod
loss old new d b' t t0 t1 small e h = omega arith

-- A checked sum is the wrapping one, and a checked difference of such sums is exact.
pub checked_sum : (a b n : ℕ) → checked_add a b ≡ some n → (n ≡ add128 a b) × (n ≡ a + b)
checked_sum a b n h = ground arith

pub checked_difference :
    (x y d new old : ℕ) → checked_sub x y ≡ some d → x ≡ new → y ≡ old → old + d ≡ new
checked_difference x y d new old h e f = ground arith

module _ (c : Config) (o : Order) where
  open c use {asset}

  -- The leaf at `i` is that of the account `who` in `token`, the sum of its available and frozen amounts
  -- was `old` and is `new`, and `old` is what `who` has authorized the dominator to use, as far as the
  -- verifier compares the two.
  pub record IsShown (i who token old new : ℕ) (s : State asset.Store) : Type 0 where
    pub leaf : MerkleLeaf
    pub stands : leaf_at o.leaves i ≡ ok leaf
    pub owner : try_get_account c.decode_account leaf ≡ ok (token, who)
    pub before : old ≡ split_old_to_sum leaf
    pub later : new ≡ split_new_to_sum leaf
    pub allowed : has_authorized_exactly_on c who token old o.dominator s ≡ true

  authorized :
      (who token amount : ℕ) (s : State asset.Store)
      → ensure_authorized c o who token amount s ≡ ok tt
      → has_authorized_exactly_on c who token amount o.dominator s ≡ true
  unfolding has_authorized_exactly_on
  authorized who token amount s h =
      (ensure-ok {0} (has_authorized_exactly_on c who token amount o.dominator s) unsatisfied
        (ok tt) tt (ground arith)).0

  -- A leaf that has been read and tested shows its account.
  pub read-IsShown :
      (i : ℕ) (leaf : MerkleLeaf) (token token' who who' new : ℕ) (s : State asset.Store)
      → leaf_at o.leaves i ≡ ok leaf
      → try_get_account c.decode_account leaf ≡ ok (token', who')
      → ensure_authorized c o who' token (split_old_to_sum leaf) s ≡ ok tt
      → token ≡ token'
      → who' ≡ who
      → split_new_to_sum leaf ≡ new
      → IsShown i who token (split_old_to_sum leaf) new s
  read-IsShown i leaf token token' who who' new s read own auth same_token same_who told = record {
    leaf = leaf;
    stands = read;
    owner = rw (same_token, ← same_who) own;
    before = refl;
    later = rw told refl;
    allowed = rw (← same_who) (authorized who' token (split_old_to_sum leaf) s auth);
  }

  pub bounds :
      (i who token old new : ℕ) (s : State asset.Store)
      → IsShown i who token old new s
      → (old < u128_mod) × (new < u128_mod)
  unfolding split_old_to_sum split_new_to_sum
  bounds i who token old new s h = (omega (arith, h.before), omega (arith, h.later))

  -- The makers from the `i`-th on are shown with the balances that the clearing gives them. Before it
  -- they had `base_total` and `quote_total` in all.
  abbrev pub AreShown : List MakerMutation → ℕ → ℕ → ℕ → State asset.Store → Type 0
  AreShown [] i base_total quote_total s = (base_total ≡ 0) × (quote_total ≡ 0)
  AreShown (m ∷ ms) i base_total quote_total s =
      (b : ℕ) × (q : ℕ) × (b' : ℕ) × (q' : ℕ) × (base_total ≡ b + b')
      × (quote_total ≡ q + q')
      × IsShown (i * 2 + 1) m.who o.base b m.base_balance s
      × IsShown (i * 2 + 2) m.who o.quote q m.quote_balance s
      × AreShown ms (i + 1) b' q' s

  -- A clearing whose new balances stand in the leaves, each under its owner's name, and where makers
  -- and taker had as much base before as they have after it together with the base fee, and likewise
  -- of quote, both modulo 2 ^ 128.
  pub record IsConserved (cr : ClearingResult) (s : State asset.Store) : Type 0 where
    pub makers_base : ℕ
    pub makers_quote : ℕ
    pub taker_base : ℕ
    pub taker_quote : ℕ
    pub count : length cr.makers ≡ o.maker_accounts / 2
    pub makers : AreShown cr.makers 0 makers_base makers_quote s
    pub base_shown :
        IsShown (o.maker_accounts + 1) cr.taker.who o.base taker_base cr.taker.base_balance s
    pub quote_shown :
        IsShown (o.maker_accounts + 2) cr.taker.who o.quote taker_quote cr.taker.quote_balance s
    pub base_kept :
        (makers_base + taker_base) % u128_mod
        ≡ (total (λ m. m.base_balance) cr.makers + cr.taker.base_balance + cr.base_fee) % u128_mod
    pub quote_kept :
        (makers_quote + taker_quote) % u128_mod
        ≡ (total (λ m. m.quote_balance) cr.makers + cr.taker.quote_balance + cr.quote_fee)
          % u128_mod
