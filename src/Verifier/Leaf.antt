-- ===== src/Verifier/Leaf.antt =====
-- `MerkleLeaf` of pallets/verifier/src/lib.rs: the keys and values of the matcher's state. A key is a
-- tag with little-endian ids; a value holds two `u128`s, the available and the frozen amount of an
-- account, or the sums on the two sides of a book.
use fusotao.Prelude.{
  ℕ, ◌+◌, ◌-◌, ◌%◌, Option, List, [], ◌∷◌, ◌==◌, ◌||◌, if◌then◌else◌, length, take, drop, get_or,
  u128_mod,
}
use fusotao.Support.Dispatch.{Result, ok, err, ◌>>=◌, ok_or, DispatchError, VerifierError}
use fusotao.Support.Bytes.{from_le_bytes, slice}
use fusotao.Support.XToken.{Bytes}
use fusotao.Verifier.Types.{fail}

pub record MerkleLeaf : Type 0 where
  pub key : Bytes
  pub old_v : Bytes
  pub new_v : Bytes

abbrev pub unsatisfied : DispatchError
unsatisfied = fail VerifierError.proofs_unsatisfied

-- Plain `+` and `-` on `u128`
abbrev pub add128 : ℕ → ℕ → ℕ
add128 a b = (a + b) % u128_mod

abbrev pub sub128 : ℕ → ℕ → ℕ
sub128 a b = (a + u128_mod - b) % u128_mod

abbrev pub account_key : ℕ
account_key = 0

abbrev pub orderbook_key : ℕ
orderbook_key = 1

abbrev pub bestprice_key : ℕ
bestprice_key = 2

abbrev pub orderpage_key : ℕ
orderpage_key = 3

-- The codec of account ids is the runtime's.
unfoldable pub try_get_account : (Bytes → Option ℕ) → MerkleLeaf → Result (ℕ × ℕ)
unfolding from_le_bytes
try_get_account decode leaf =
    if length leaf.key == 37
    then (if get_or leaf.key 0 0 == account_key
        then (do
          who ← ok_or (decode (slice leaf.key 1 33)) unsatisfied
          ok (from_le_bytes (drop 33 leaf.key), who))
        else err unsatisfied)
    else err unsatisfied

unfoldable pub try_get_symbol : MerkleLeaf → Result (ℕ × ℕ)
unfolding from_le_bytes
try_get_symbol leaf =
    if length leaf.key == 9
    then (if get_or leaf.key 0 0 == orderbook_key || get_or leaf.key 0 0 == bestprice_key
        then ok (from_le_bytes (slice leaf.key 1 5), from_le_bytes (drop 5 leaf.key))
        else err unsatisfied)
    else err unsatisfied

unfoldable pub try_get_orderpage : MerkleLeaf → Result (ℕ × (ℕ × ℕ))
unfolding from_le_bytes
try_get_orderpage leaf =
    if length leaf.key == 25
    then (if get_or leaf.key 0 0 == orderpage_key
        then ok (
          from_le_bytes (slice leaf.key 1 5),
          (from_le_bytes (slice leaf.key 5 9), from_le_bytes (drop 9 leaf.key)),
        )
        else err unsatisfied)
    else err unsatisfied

abbrev pub split_value : Bytes → Bytes × Bytes
split_value v = (take 16 v, drop 16 v)

unfoldable pub split_old_to_u128 : MerkleLeaf → ℕ × ℕ
unfolding from_le_bytes
split_old_to_u128 leaf = let (l, r) = split_value leaf.old_v in (from_le_bytes l, from_le_bytes r)

unfoldable pub split_new_to_u128 : MerkleLeaf → ℕ × ℕ
unfolding from_le_bytes
split_new_to_u128 leaf = let (l, r) = split_value leaf.new_v in (from_le_bytes l, from_le_bytes r)

unfoldable pub split_old_to_sum : MerkleLeaf → ℕ
unfolding split_old_to_u128
split_old_to_sum leaf = let (l, r) = split_old_to_u128 leaf in add128 l r

unfoldable pub split_new_to_sum : MerkleLeaf → ℕ
unfolding split_new_to_u128
split_new_to_sum leaf = let (l, r) = split_new_to_u128 leaf in add128 l r

-- `leaves[i]`, which panics where there is no such leaf, and `leaves.last().unwrap()`.
unfoldable pub leaf_at : List MerkleLeaf → ℕ → Result MerkleLeaf
leaf_at [] i = err DispatchError.panicked
leaf_at (l ∷ ls) i = if i == 0 then ok l else leaf_at ls (i - 1)

abbrev pub last_leaf : List MerkleLeaf → Result MerkleLeaf
unfolding leaf_at
last_leaf leaves = leaf_at leaves (length leaves - 1)
