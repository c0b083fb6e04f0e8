-- ===== src/Verifier/Tests.antt =====
-- Runs of pallets/verifier, and its theorems at concrete inputs.
use fusotao.Prelude.{
  replicate, ℕ, ◌+◌, ◌*◌, ◌^◌, ◌≡◌, ◌≤◌, refl, arith, List, [], ◌∷◌, none, nat_eq, pair_eq,
}
use fusotao.Support.Bytes.{from_le_bytes}
use fusotao.Support.Storage.{get, insert, remove, sum_by, IsMap}
use fusotao.Support.Dispatch.{Result, ok, err, signed, root, VerifierError}
use fusotao.Token.Trait.{token_asset, token_laws}
use fusotao.Token.Accounts
use fusotao.Verifier.Types.{State, or_zero, fail}
use fusotao.Verifier.Reserves.{reserve, clear}
use fusotao.Verifier.Custody.{authorize_to}
use fusotao.Verifier.Leaf.{
  MerkleLeaf, try_get_account, leaf_at, split_old_to_u128, split_new_to_u128,
}
use fusotao.Verifier.Transfers.{verify_transfer_in}
use fusotao.Verifier.Update.{transfer_in_to, reject_in, ProofV2, Trade, World, transfer_in}
use fusotao.Verifier.Batch.{verify_and_update, verify_roots, execute, step_forward, no_trade}
use fusotao.Verifier.Batch.Root.{StandIn, HasRoot, verify_and_update-HasRoot}
use fusotao.Verifier.Follows.{Follows, set_aside}
use fusotao.Verifier.History.{
  Call, evicts, launches, stakes, authorizes, revokes, opens_block, after, run, run-Follows,
}
use fusotao.Verifier.Eviction.{IsEvicted, run-IsEvicted}
use fusotao.Verifier.Hosting.{
  stash_key, transfer_in_to-set_aside, transfer_in_to-once, authorize-transfer_in,
  reject_in-strands,
}
use fusotao.Verifier.Follows.Custody.{clear-Follows}
use fusotao.Verifier.Sample.{fuso, laws, outside, books, account_leaf}

books-IsValid : laws.IsValid books.assets
unfolding laws token_laws token_asset books get
books-IsValid = (refl, (refl, tt))

abbrev history : List (ℕ × Call)
history =
    (40, authorizes (signed 7) 100 1 20)
    ∷ (41, revokes (signed 7) 101 1 5)
    ∷ (42, stakes (signed 7) 100 (100 * 10 ^ 18))
    ∷ (60, opens_block)
    ∷ (61, evicts root 100)
    ∷ (62, launches root 101)
    ∷ []

run-Follows_example : Follows fuso laws books (run fuso history books)
run-Follows_example = run-Follows fuso laws history books books-IsValid

books-covered : set_aside 1 7 books ≤ fuso.asset.reserved_balance 1 7 books.assets
unfolding token_asset books get sum_by Accounts.reserved_balance
books-covered = omega arith

books-IsEvicted : IsEvicted 101 books
unfolding books get
books-IsEvicted = (_, refl, refl)

run-IsEvicted_example : IsEvicted 101 (run fuso history books)
run-IsEvicted_example = run-IsEvicted fuso 101 history books books-IsEvicted

-- Account 7 authorizes 20, the dominator rejects that, account 7 authorizes 30, and the dominator
-- accepts.
hosted : State fuso.asset.Store
hosted = after books (authorize_to fuso 50 7 100 1 20 books)

rejected : State fuso.asset.Store
rejected = after hosted (reject_in fuso outside 100 7 hosted)

hosted_again : State fuso.asset.Store
hosted_again = after rejected (authorize_to fuso 51 7 100 1 30 rejected)

abbrev leaves : ℕ → List MerkleLeaf
leaves amount = account_leaf 7 1 (10, 0) (10 + amount, 0) ∷ []

accepted : State fuso.asset.Store
accepted = after hosted_again (transfer_in_to fuso outside 100 7 1 30 (leaves 30) hosted_again)

hosts : authorize_to fuso 50 7 100 1 20 books ≡ ok hosted
unfolding hosted books token_asset authorize_to reserve get insert Accounts.reserve
    Accounts.can_reserve
hosts = refl

rejects : reject_in fuso outside 100 7 hosted ≡ ok rejected
unfolding hosted rejected books token_asset authorize_to reserve reject_in get insert remove
    Accounts.reserve Accounts.can_reserve
rejects = refl

hosts_again : authorize_to fuso 51 7 100 1 30 rejected ≡ ok hosted_again
unfolding hosted rejected hosted_again books token_asset authorize_to reserve reject_in get insert
    remove Accounts.reserve Accounts.can_reserve
hosts_again = refl

accepts : transfer_in_to fuso outside 100 7 1 30 (leaves 30) hosted_again ≡ ok accepted
unfolding hosted rejected hosted_again accepted books token_asset authorize_to reserve reject_in
    transfer_in_to get insert remove Accounts.reserve Accounts.can_reserve verify_transfer_in
    try_get_account leaf_at split_old_to_u128 split_new_to_u128 from_le_bytes
accepts = refl

accepted_once : State fuso.asset.Store
accepted_once = after hosted (transfer_in_to fuso outside 100 7 1 20 (leaves 20) hosted)

accepts_once : transfer_in_to fuso outside 100 7 1 20 (leaves 20) hosted ≡ ok accepted_once
unfolding hosted accepted_once books token_asset authorize_to reserve transfer_in_to get insert
    remove Accounts.reserve Accounts.can_reserve verify_transfer_in try_get_account leaf_at
    split_old_to_u128 split_new_to_u128 from_le_bytes
accepts_once = refl

stash_empty : get (stash_key 7 1 100) books.reserves ≡ none
unfolding books get
stash_empty = refl

hosted-IsMap : IsMap hosted.receipts
unfolding hosted books token_asset authorize_to reserve get insert Accounts.reserve
    Accounts.can_reserve
hosted-IsMap = (refl, tt)

transfer_in_to-set_aside_example :
    (set_aside 1 7 accepted + or_zero (get (stash_key 7 1 100) hosted_again.reserves)
      ≡ set_aside 1 7 hosted_again + 30)
    × (accepted.assets ≡ hosted_again.assets)
transfer_in_to-set_aside_example =
    transfer_in_to-set_aside fuso outside 100 7 1 30 (leaves 30) hosted_again accepted accepts

transfer_in_to-once_example :
    transfer_in_to fuso outside 100 7 1 20 (leaves 20) accepted_once
    ≡ err (fail VerifierError.receipt_not_exists)
transfer_in_to-once_example =
    transfer_in_to-once fuso outside 100 7 1 20 1 20 (leaves 20) (leaves 20) hosted accepted_once
      hosted-IsMap accepts_once

authorize-transfer_in_example :
    set_aside 1 7 accepted_once + fuso.asset.reserved_balance 1 7 books.assets
    ≡ set_aside 1 7 books + fuso.asset.reserved_balance 1 7 accepted_once.assets
authorize-transfer_in_example =
    authorize-transfer_in fuso outside laws 50 7 100 1 20 (leaves 20) books hosted accepted_once
      books-IsValid stash_empty hosts accepts_once

reject_in-strands_example :
    set_aside 1 7 accepted + 20 + fuso.asset.reserved_balance 1 7 books.assets
    ≡ set_aside 1 7 books + fuso.asset.reserved_balance 1 7 accepted.assets
reject_in-strands_example =
    reject_in-strands fuso outside laws 50 51 7 100 1 20 30 (leaves 30) books hosted rejected
      hosted_again accepted books-IsValid stash_empty hosts rejects hosts_again accepts

settled : State fuso.asset.Store
settled = after books (clear fuso 7 100 1 25 books)

settles : clear fuso 7 100 1 25 books ≡ ok settled
unfolding settled books token_asset clear get insert Accounts.try_mutate_account
settles = refl

clear-Follows_example : Follows fuso laws books settled
clear-Follows_example =
    clear-Follows fuso laws 7 100 1 25 books settled settles books-IsValid books-covered

-- The transfer in as a proof, on the way from the empty root to another.
abbrev proof : ProofV2
proof = record {
  event_id = 1;
  user_id = 7;
  cmd = transfer_in 1 20;
  leaves = leaves 20;
  maker_page_delta = 0;
  maker_account_delta = 0;
  merkle_proof = [];
  root = replicate 32 1;
}

abbrev after_trade : World fuso outside → Result (Trade × World fuso outside) → World fuso outside
after_trade w (ok r) = r.1
after_trade w (err e) = w

updated : World fuso outside
updated =
    after_trade (hosted, tt)
      (verify_and_update fuso outside 60 100 100 (replicate 32 0) 20 proof (hosted, tt))

updates :
    verify_and_update fuso outside 60 100 100 (replicate 32 0) 20 proof (hosted, tt)
    ≡ ok (no_trade fuso outside (replicate 32 1), updated)
unfolding updated hosted books token_asset authorize_to reserve verify_and_update verify_roots
    execute step_forward transfer_in_to get insert remove Accounts.reserve Accounts.can_reserve
    verify_transfer_in try_get_account leaf_at split_old_to_u128 split_new_to_u128 from_le_bytes
updates = refl

hosted-HasRoot : HasRoot 100 (replicate 32 0) hosted
unfolding hosted books token_asset authorize_to reserve get insert Accounts.reserve
    Accounts.can_reserve
hosted-HasRoot = (_, refl, refl)

verify_and_update-HasRoot_example :
    StandIn fuso outside (replicate 32 0) (λ leaf. leaf.old_v) proof
    × StandIn fuso outside (replicate 32 1) (λ leaf. leaf.new_v) proof
    × HasRoot 100 (replicate 32 1) updated.0
verify_and_update-HasRoot_example =
    verify_and_update-HasRoot fuso outside 60 100 100 (replicate 32 0) 20 proof
      (no_trade fuso outside (replicate 32 1)) (hosted, tt) updated hosted-HasRoot updates
