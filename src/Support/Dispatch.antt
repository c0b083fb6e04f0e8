-- ===== src/Support/Dispatch.antt =====
-- `DispatchError` and `DispatchResult` of sp_runtime, with the `Error` enum of each pallet.
-- A call that ends in an error has no effect: the pallets' entry points run in a storage layer
-- (`#[transactional]`, and every dispatchable of this version of FRAME), so an operation on a state
-- `S` is a function `S → Result (A × S)`.
use fusotao.Prelude.{ℕ, ◌≡◌, refl, ◌⊎◌, inl, inr, Bool, true, false, Option, none, some, arith}

-- pallets/token/src/lib.rs, `Error`
pub data TokenError : Type 0 where
  amount_zero balance_low balance_zero invalid_token_name token_not_found : TokenError
  insufficient_balance overflow too_many_reserves invalid_decimals contract_error : TokenError

-- pallets/reward/src/lib.rs, `Error`
pub data RewardError : Type 0 where
  overflow divide_by_zero reward_not_found insufficient_liquidity : RewardError
  liquidity_not_found : RewardError

-- pallets/market/src/lib.rs, `Error`
pub data MarketError : Type 0 where
  broker_not_found broker_already_registered unsupported_quote_currency : MarketError
  token_not_found market_not_registered market_couldnt_update market_not_exists : MarketError
  market_scale_overflow broker_name_too_long : MarketError

-- pallets/foundation/src/lib.rs, `Error`
pub data FoundationError : Type 0 where
  already_exists epoch_not_reached invalid_approver : FoundationError

-- pallets/chainbridge/src/lib.rs, `Error`
pub data BridgeError : Type 0 where
  threshold_not_set invalid_chain_id invalid_threshold chain_not_whitelisted : BridgeError
  chain_already_whitelisted resource_does_not_exist relayer_already_exists : BridgeError
  relayer_invalid must_be_relayer relayer_already_voted proposal_already_exists : BridgeError
  proposal_does_not_exist proposal_not_complete proposal_already_complete : BridgeError
  proposal_expired resource_id_not_map_to_token invalid_resource_id : BridgeError

-- pallets/chainbridge-handler/src/lib.rs, `Error`
pub data HandlerError : Type 0 where
  invalid_transfer invalid_token_id invalid_resource_id wrong_asset_id : HandlerError
  invalid_token_name over_transfer_limit asset_already_exists invalid_call_message : HandlerError
  register_agent_failed depositer_not_found price_overflow : HandlerError
  less_than_bridging_threshold resource_id_invalid fee_zero : HandlerError

-- pallets/verifier/src/lib.rs, `Error`
pub data VerifierError : Type 0 where
  dominator_not_found proofs_unsatisfied illegal_parameters receipt_not_exists : VerifierError
  chain_not_support receipt_already_exists dominator_already_exists : VerifierError
  too_early_to_register dominator_inactive insufficient_balance overflow : VerifierError
  insufficient_staking_amount invalid_name invalid_status invalid_staking : VerifierError
  staking_not_exists distribution_ongoing little_staking_amount : VerifierError
  unsupported_quote_currency dominator_evicted dominator_status_invalid fees_too_high :
      VerifierError
  proof_decompress_error proof_format_error proof_too_large : VerifierError
  invalid_beneficiary_proof : VerifierError

-- `balances` and `call` carry the errors of pallet_balances and of a dispatched call, by a number;
-- `panicked` stands for a panic of the runtime, which undoes the call as an error does.
pub data DispatchError : Type 0 where
  token : TokenError → DispatchError
  reward : RewardError → DispatchError
  market : MarketError → DispatchError
  foundation : FoundationError → DispatchError
  bridge : BridgeError → DispatchError
  handler : HandlerError → DispatchError
  verifier : VerifierError → DispatchError
  balances : ℕ → DispatchError
  call : ℕ → DispatchError
  other bad_origin panicked : DispatchError

pub data Result {ℓ} (A : Type ℓ) : Type ℓ where
  ok : A → Result A
  err : DispatchError → Result A

infixl 5 ◌>>=◌ ◌>>◌
abbrev pub ◌>>=◌ {ℓ κ} :
    {Value : Type ℓ} {Next : Type κ} → Result Value → (Value → Result Next) → Result Next
err e >>= f = err e
ok a >>= f = f a

abbrev pub ◌>>◌ {ℓ} : {B : Type ℓ} → Result (Unit {0}) → Result B → Result B
m >> k = m >>= λ _. k

-- `ensure!(condition, error)`
abbrev pub ensure : Bool → DispatchError → Result (Unit {0})
ensure true e = ok tt
ensure false e = err e

-- `option.ok_or(error)?`
abbrev pub ok_or {ℓ} : {A : Type ℓ} → Option A → DispatchError → Result A
ok_or none e = err e
ok_or (some a) e = ok a

-- `RawOrigin` of frame_system, with `ensure_signed` and `ensure_root`.
pub data Origin : Type 0 where
  root unsigned : Origin
  signed : ℕ → Origin

abbrev pub ensure_signed : Origin → Result ℕ
ensure_signed root = err DispatchError.bad_origin
ensure_signed unsigned = err DispatchError.bad_origin
ensure_signed (signed who) = ok who

abbrev pub ensure_root : Origin → Result (Unit {0})
ensure_root root = ok tt
ensure_root unsigned = err DispatchError.bad_origin
ensure_root (signed who) = err DispatchError.bad_origin

pub Result-cases {ℓ} :
    {A : Type ℓ} (r : Result A) → ((e : DispatchError) × (r ≡ err e)) ⊎ ((a : A) × (r ≡ ok a))
Result-cases (err e) = inl (e, refl)
Result-cases (ok a) = inr (a, refl)

-- What the steps of a chain that succeeds have been.
pub bind-ok {ℓ κ} :
    {A : Type ℓ} {B : Type κ} (r : Result A) (f : A → Result B) (b : B)
    → (r >>= f) ≡ ok b
    → (a : A) × (r ≡ ok a) × (f a ≡ ok b)
bind-ok (err e) f b h = absurd (ground arith)
bind-ok (ok a) f b h = (a, refl, h)

-- The value of a result, and else another.
abbrev pub value_or {ℓ} : {A : Type ℓ} → A → Result A → A
value_or a (err e) = a
value_or a (ok b) = b

pub ok_or-ok {ℓ κ} :
    {A : Type ℓ} {B : Type κ} (x : Option A) (e : DispatchError) (f : A → Result B) (b : B)
    → (ok_or x e >>= f) ≡ ok b
    → (a : A) × (x ≡ some a) × (f a ≡ ok b)
ok_or-ok none e f b h = absurd (ground arith)
ok_or-ok (some a) e f b h = (a, refl, h)

pub ensure-ok {ℓ} :
    {B : Type ℓ} (t : Bool) (e : DispatchError) (k : Result B) (b : B)
    → (ensure t e >> k) ≡ ok b
    → (t ≡ true) × (k ≡ ok b)
ensure-ok true e k b h = (refl, h)
ensure-ok false e k b h = absurd (ground arith)

-- The same for a long chain: what follows is proved of any values that the steps can have.
pub bind-then {ℓ κ ι} :
    {A : Type ℓ} {B : Type κ} {P : Type ι} (r : Result A) (f : A → Result B) (b : B)
    → (r >>= f) ≡ ok b
    → ((a : A) → r ≡ ok a → f a ≡ ok b → P)
    → P
bind-then r f b h k = let (a, e, h') = bind-ok r f b h in k a e h'

pub ok_or-then {ℓ κ ι} :
    {A : Type ℓ} {B : Type κ} {P : Type ι} (x : Option A) (e : DispatchError) (f : A → Result B)
    (b : B)
    → (ok_or x e >>= f) ≡ ok b
    → ((a : A) → x ≡ some a → f a ≡ ok b → P)
    → P
ok_or-then x e f b h k = let (a, e', h') = ok_or-ok x e f b h in k a e' h'

pub ensure-then {ℓ ι} :
    {B : Type ℓ} {P : Type ι} (t : Bool) (e : DispatchError) (k : Result B) (b : B)
    → (ensure t e >> k) ≡ ok b
    → (t ≡ true → k ≡ ok b → P)
    → P
ensure-then t e k b h g = let (e', h') = ensure-ok t e k b h in g e' h'
