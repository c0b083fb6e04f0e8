-- ===== src/Verifier/Sample.antt =====
-- pallets/verifier over the sample runtime of pallets/token: two dominators, and an owner with funds
-- at one of them.
use fusotao.Prelude.{
  ℕ, ◌+◌, ◌-◌, ◌*◌, ◌/◌, ◌^◌, ◌≡◌, ◌≤◌, refl, true, ◌++◌, some, [], ◌∷◌, ◌==◌, arith, replicate,
  nat_eq, if◌then◌else◌, Bool-cases, inl, inr, leb,
}
use fusotao.Support.Bytes.{from_le_bytes}
use fusotao.Support.Storage.{get-insert}
use fusotao.Support.Dispatch.{ok}
use fusotao.Support.XToken.{Bytes}
use fusotao.Support.Asset.{Account, ReserveLaws}
use fusotao.Support.Constants.{reserve_for_authorizing, dominator_active, dominator_evicted}
use fusotao.Token.Trait.{token_asset, NativeLaws, token_laws}
use fusotao.Token.Sample.{
  Ledger, runtime, state, native_account, native_reserve, native_unreserve, set_native,
}
use fusotao.Verifier.Types.{Dominator, State, Config}
use fusotao.Verifier.Leaf.{MerkleLeaf}
use fusotao.Verifier.Update.{Outside}

abbrev pub fuso : Config
fuso = record {
  asset = token_asset runtime;
  dominator_online_threshold = 80_000 * 10 ^ 18;
  season_duration = 43_200;
  dominator_check_grace_period = 20;
  minimal_staking_amount = 100 * 10 ^ 18;
  max_maker_fee = 10_000;
  max_taker_fee = 10_000;
  system_account = 999;
  is_ascii = runtime.is_ascii;
  lookup = λ who. ok who;
  decode_account = λ b. some (from_le_bytes b);
  share = λ a b p. a * p / b;
  mul_ceil = λ parts a. (parts * a + 999_999) / 1_000_000;
  bit_and = λ a b. 0;
}

native_account-set :
    (w w' : ℕ) (b : Account) (n : Ledger)
    → (native_account w' (set_native w b n)).reserved
      ≡ (if w == w' then b.reserved else (native_account w' n).reserved)
native_account-set w w' b n = elim (Bool-cases (w == w')) [
  | inl same ↦ rw (get-insert w w' b n.accounts, same) refl
  | inr other ↦ rw (get-insert w w' b n.accounts, other) refl
]

native_reserve-reserved :
    (w v w' : ℕ) (n n' : Ledger)
    → native_reserve w v n ≡ ok n'
    → (native_account w' n').reserved ≡ (native_account w' n).reserved + (if w == w' then v else 0)
native_reserve-reserved w v w' n n' h =
    let a = native_account w n in
    let b : Account = record { free = a.free - v; reserved = a.reserved + v } in
    elim (Bool-cases (leb v a.free)) [
      | inr short ↦ ground arith
      | inl covered ↦
          let e : n' ≡ set_native w b n = ground arith in
          let split = native_account-set w w' b n in
          elim (Bool-cases (w == w')) [
            | inl same ↦ let here : w ≡ w' = ground arith in rw (e, split, same, here) refl
            | inr other ↦ rw (e, split, other) (omega arith)
          ]
    ]

native_unreserve-reserved :
    (w v w' : ℕ) (n : Ledger)
    → v ≤ (native_account w n).reserved
    → (native_account w' (native_unreserve w v n)).reserved + (if w == w' then v else 0)
      ≡ (native_account w' n).reserved
native_unreserve-reserved w v w' n h =
    let a = native_account w n in
    let actual = if leb v a.reserved then v else a.reserved in
    let all : actual ≡ v = ground arith in
    let b : Account = record { free = a.free + actual; reserved = a.reserved - actual } in
    let split = native_account-set w w' b n in
    elim (Bool-cases (w == w')) [
      | inl same ↦
          let here : w ≡ w' = ground arith in rw (split, same, all, ← here) (omega (arith, h))
      | inr other ↦ rw (split, other) (omega arith)
    ]

-- The ledger reserves as pallet_balances documents.
pub ledger_laws : NativeLaws runtime
ledger_laws = record {
  native-reserve = native_reserve-reserved;
  native-unreserve = native_unreserve-reserved;
  native-set_account = λ w w' b n n' h.
      let e : n' ≡ set_native w b n = ground arith in rw e (native_account-set w w' b n);
}

unfoldable pub laws : ReserveLaws fuso.asset
laws = token_laws runtime ledger_laws

-- Other pallets that do nothing, and a tree that accepts every leaf.
abbrev pub outside : Outside fuso
outside = record {
  Others = Unit;
  hashing = λ b. b;
  verify_leaves = λ proof root leaves. some true;
  consume_liquidity = λ who pair vol at o. ok o;
  put_liquidity = λ who pair vol at o. o;
  remove_liquidity = λ who pair vol o. ok o;
  set_price = λ token amount vol at o. o;
  beneficiary = λ broker o. broker;
  dispatch = λ cb who w. ok w;
}

abbrev pub dominator_with : Bytes → ℕ → ℕ → Dominator
dominator_with name start status = record {
  name = name;
  staked = 0;
  merkle_root = replicate 32 0;
  start_from = start;
  sequence = (0, start);
  status = status;
}

-- Dominator 100 is active and has 10 of token 1 from account 7; dominator 101 has been evicted.
unfoldable pub books : State fuso.asset.Store
unfolding token_asset
books = record {
  assets = state;
  receipts = [];
  dominators =
      (100, dominator_with (b'd' ∷ b'e' ∷ []) 20 dominator_active)
      ∷ (101, dominator_with (b'x' ∷ b'y' ∷ []) 20 dominator_evicted)
      ∷ [];
  dominator_settings = [];
  reserves = (((reserve_for_authorizing, (7, 1)), 100), 10) ∷ [];
  bonuses = [];
  stakings = [];
  pending_unstakings = [];
  events = [];
}

-- A leaf, from its key and the two small numbers before and after.
abbrev pub small : ℕ → ℕ → Bytes
small n width = n ∷ replicate (width - 1) 0

abbrev pub leaf_of : Bytes → ℕ × ℕ → ℕ × ℕ → MerkleLeaf
leaf_of key (a, b) (c, d) = record {
  key = key;
  old_v = small a 16 ++ small b 16;
  new_v = small c 16 ++ small d 16;
}

abbrev pub account_leaf : ℕ → ℕ → ℕ × ℕ → ℕ × ℕ → MerkleLeaf
account_leaf who token = leaf_of (0 ∷ small who 32 ++ small token 4)

abbrev pub symbol_leaf : ℕ → ℕ → ℕ → ℕ × ℕ → ℕ × ℕ → MerkleLeaf
symbol_leaf tag base quote = leaf_of (tag ∷ small base 4 ++ small quote 4)

abbrev pub page_leaf : ℕ → ℕ → ℕ → ℕ × ℕ → ℕ × ℕ → MerkleLeaf
page_leaf base quote price = leaf_of (3 ∷ small base 4 ++ small quote 4 ++ small price 16)
