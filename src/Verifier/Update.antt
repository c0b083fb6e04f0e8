-- ===== src/Verifier/Update.antt =====
-- `verify_batch` and `verify_and_update` of pallets/verifier/src/lib.rs: a dominator's proofs update
-- the books. The sparse Merkle tree, the hash and the dispatch of callbacks come from elsewhere, as do
-- the pallets behind `Rewarding`, `Indicator` and `BrokerBeneficiary`.
use fusotao.Prelude.{
  ℕ, Bool, true, false, ◌&&◌, Option, none, some, List, [], ◌∷◌, ◌==◌, if◌then◌else◌, checked_add,
  checked_sub, nat_eq, pair_eq,
}
use fusotao.Support.Storage.{get, insert, remove}
use fusotao.Support.Dispatch.{Result, ok, err, ◌>>=◌, ◌>>◌, ensure, ok_or, VerifierError}
use fusotao.Support.XToken.{Bytes}
use fusotao.Support.Asset.{on_account}
use fusotao.Support.Constants.{reserve_for_authorizing, reserve_for_authorizing_stash}
use fusotao.Verifier.Types.{
  Receipt, authorize, revoke, revoke_with_callback, ReserveKey, State, Config, fail, or_zero,
}
use fusotao.Verifier.Reserves.{unreserve, clear}
use fusotao.Verifier.Staking.{credit, put_profit}
use fusotao.Verifier.Leaf.{MerkleLeaf}
use fusotao.Verifier.Clearing.{MakerMutation, ClearingResult, Order}
use fusotao.Verifier.Transfers.{
  check_fee, verify_transfer_in, verify_transfer_out, verify_reject_transfer_out,
}

-- price, amount, maker fee, taker fee, base, quote, broker
pub data CommandV2 : Type 0 where
  ask_limit bid_limit : ℕ → ℕ → ℕ → ℕ → ℕ → ℕ → Option ℕ → CommandV2
  cancel transfer_out transfer_in reject_transfer_out : ℕ → ℕ → CommandV2
  reject_transfer_in : CommandV2

pub record ProofV2 : Type 0 where
  pub event_id : ℕ
  pub user_id : ℕ
  pub cmd : CommandV2
  pub leaves : List MerkleLeaf
  pub maker_page_delta : ℕ
  pub maker_account_delta : ℕ
  pub merkle_proof : Bytes
  pub root : Bytes

pub record Trade : Type 0 where
  pub token_id : ℕ
  pub root : Bytes
  pub amount : ℕ
  pub vol : ℕ

-- The other pallets' state, and what the source calls of them; `verify_leaves` is
-- `CompiledMerkleProof(..).verify(root, leaves)`, with `none` for its error.
pub record Outside (c : Config) : Type 1 where
  pub Others : Type 0
  pub hashing : Bytes → Bytes
  pub verify_leaves : Bytes → Bytes → List (Bytes × Bytes) → Option Bool
  pub consume_liquidity : ℕ → ℕ × ℕ → ℕ → ℕ → Others → Result Others
  pub put_liquidity : ℕ → ℕ × ℕ → ℕ → ℕ → Others → Others
  pub remove_liquidity : ℕ → ℕ × ℕ → ℕ → Others → Result Others
  pub set_price : ℕ → ℕ → ℕ → ℕ → Others → Others
  pub beneficiary : ℕ → Others → ℕ
  pub dispatch : ℕ → ℕ → State c.asset.Store × Others → Result (State c.asset.Store × Others)

module _ (c : Config) (x : Outside c) where
  open c use {asset}
  open x use {Others}

  abbrev pub World : Type 0
  World = State asset.Store × Others

  -- `for d in cr.makers.iter()`
  unfoldable pub clear_makers : ℕ → ℕ → ℕ → ℕ → List MakerMutation → World → Result World
  unfolding clear
  clear_makers now dominator base quote [] w = ok w
  clear_makers now dominator base quote (d ∷ rest) w = do
    s₁ ← clear c d.who dominator base d.base_balance w.0
    s₂ ← clear c d.who dominator quote d.quote_balance s₁
    others ← x.consume_liquidity d.who (base, quote) d.filled_volume now w.1
    clear_makers now dominator base quote rest (s₂, others)

  -- The base fee: half to the broker, where there is one, and the rest to the beneficiary.
  unfoldable pub pay_base_fee : ℕ → ℕ → Option ℕ → ℕ → World → Result World
  pay_base_fee base beneficiary broker base_fee (s, others) =
      if base_fee == 0 then ok (s, others) else elim broker [
        | none ↦ (do
          assets ←
              asset.try_mutate_account base beneficiary (on_account (credit c base_fee)) s.assets
          ok (record s { assets = assets }, others))
        | some b ↦ (do
          let near_half = c.mul_ceil 500_000 base_fee
          assets ←
              asset.try_mutate_account base (x.beneficiary b others)
                (on_account (credit c near_half)) s.assets
          rest ← ok_or (checked_sub base_fee near_half) (fail VerifierError.overflow)
          assets' ← asset.try_mutate_account base beneficiary (on_account (credit c rest)) assets
          ok (record s { assets = assets' }, others))
      ]

  -- What both kinds of orders do with the result of their clearing.
  unfoldable pub settle : ℕ → ℕ → ℕ → ℕ → Order → Option ℕ → ClearingResult → World → Result World
  unfolding clear_makers pay_base_fee clear put_profit
  settle now season dominator beneficiary o broker cr w = do
    (s₁, others) ← clear_makers now dominator o.base o.quote cr.makers w
    s₂ ← clear c cr.taker.who dominator o.base cr.taker.base_balance s₁
    s₃ ← clear c cr.taker.who dominator o.quote cr.taker.quote_balance s₂
    let others' = x.put_liquidity cr.taker.who (o.base, o.quote) cr.taker.unfilled_volume now others
    s₄ ← put_profit c dominator season o.quote cr.quote_fee s₃
    pay_base_fee o.base beneficiary broker cr.base_fee (s₄, others')

  -- `CommandV2::AskLimit` and `CommandV2::BidLimit`, by the function that verifies the leaves.
  unfoldable pub limit_order :
      (Order → State asset.Store → Result ClearingResult)
      → ℕ
      → ℕ
      → ℕ
      → ℕ
      → Order
      → Option ℕ
      → World
      → Result (ClearingResult × World)
  unfolding check_fee settle
  limit_order verify now season dominator beneficiary o broker w = do
    check_fee c o.taker_fee o.maker_fee
    ensure (asset.is_stable o.quote w.0.assets) (fail VerifierError.unsupported_quote_currency)
    cr ← verify o w.0
    w' ← settle now season dominator beneficiary o broker cr w
    ok (cr, w')

  -- Does the receipt ask for this revocation, and for this authorization?
  abbrev pub is_revocation : ℕ → ℕ → Receipt → Bool
  is_revocation currency amount (authorize _ _ _) = false
  is_revocation currency amount (revoke id value _) = id == currency && value == amount
  is_revocation currency amount (revoke_with_callback id value _ _) =
      id == currency && value == amount

  abbrev pub is_authorization : ℕ → ℕ → Receipt → Bool
  is_authorization currency amount (authorize id value _) = id == currency && value == amount
  is_authorization currency amount (revoke _ _ _) = false
  is_authorization currency amount (revoke_with_callback _ _ _ _) = false

  -- A callback that fails is logged, and its own effects are undone.
  unfoldable pub call_back : ℕ → Receipt → World → World
  call_back user (authorize _ _ _) w = w
  call_back user (revoke _ _ _) w = w
  call_back user (revoke_with_callback _ _ _ cb) w = elim (x.dispatch cb user w) [
    | err e ↦ w
    | ok w' ↦ w'
  ]

  unfoldable pub transfer_out_of : ℕ → ℕ → ℕ → ℕ → List MerkleLeaf → World → Result World
  unfolding verify_transfer_out unreserve call_back
  transfer_out_of dominator user currency amount leaves (s, others) = do
    r ← ok_or (get (dominator, user) s.receipts) (fail VerifierError.receipt_not_exists)
    ensure (is_revocation currency amount r) (fail VerifierError.receipt_not_exists)
    verify_transfer_out c currency amount user leaves
    s₁ ← unreserve c reserve_for_authorizing user currency amount dominator s
    ok (call_back user r (record s₁ { receipts = remove (dominator, user) s₁.receipts }, others))

  -- The stash becomes part of the confirmed reserve.
  unfoldable pub transfer_in_to :
      ℕ → ℕ → ℕ → ℕ → List MerkleLeaf → State asset.Store → Result (State asset.Store)
  unfolding verify_transfer_in
  transfer_in_to dominator user currency amount leaves s = do
    r ← ok_or (get (dominator, user) s.receipts) (fail VerifierError.receipt_not_exists)
    ensure (is_authorization currency amount r) (fail VerifierError.receipt_not_exists)
    verify_transfer_in c currency amount user leaves
    let stash : ReserveKey = ((reserve_for_authorizing_stash, (user, currency)), dominator)
    let confirmed : ReserveKey = ((reserve_for_authorizing, (user, currency)), dominator)
    let reserves = remove stash s.reserves
    grown ←
        ok_or (checked_add (or_zero (get confirmed reserves)) amount) (fail VerifierError.overflow)
    ok (record s {
      reserves = insert confirmed grown reserves;
      receipts = remove (dominator, user) s.receipts;
    })

  unfoldable pub reject_out :
      ℕ → ℕ → ℕ → ℕ → List MerkleLeaf → State asset.Store → Result (State asset.Store)
  unfolding verify_reject_transfer_out
  reject_out dominator user currency amount leaves s = do
    r ← ok_or (get (dominator, user) s.receipts) (fail VerifierError.receipt_not_exists)
    ensure (is_revocation currency amount r) (fail VerifierError.receipt_not_exists)
    verify_reject_transfer_out c currency amount user leaves
    ok (record s { receipts = remove (dominator, user) s.receipts })

  abbrev pub is_authorize : Receipt → Bool
  is_authorize (authorize _ _ _) = true
  is_authorize (revoke _ _ _) = false
  is_authorize (revoke_with_callback _ _ _ _) = false

  unfoldable pub reject_in : ℕ → ℕ → State asset.Store → Result (State asset.Store)
  reject_in dominator user s = elim (get (dominator, user) s.receipts) [
    | none ↦ ok s
    | some r ↦ (do
      ensure (is_authorize r) (fail VerifierError.receipt_not_exists)
      ok (record s { receipts = remove (dominator, user) s.receipts }))
  ]
