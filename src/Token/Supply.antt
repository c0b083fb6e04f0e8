-- ===== src/Token/Supply.antt =====
-- Issuing tokens, minting and burning: the calls of pallets/token/src/lib.rs, `do_mint`, `do_burn`,
-- `create` and the functions that read a token's entry.
use fusotao.Prelude.{
  ℕ, ◌+◌, ◌%◌, true, false, not, ◌&&◌, Option, none, some, ◌==◌, leb, ltb, if◌then◌else◌,
  checked_add, checked_sub, length, nat_eq, pair_eq, bytes_eq, u32_mod,
}
use fusotao.Support.Storage.{get, insert, put, contains_key}
use fusotao.Support.Dispatch.{
  Result, ok, err, ◌>>=◌, ◌>>◌, ensure, ok_or, TokenError, DispatchError, Origin, ensure_signed,
}
use fusotao.Support.XToken.{
  XToken, nep141, erc20, bep20, polygon, fnd10, Bytes, symbol, max_decimals,
}
use fusotao.Token.Types.{or_default, unless_dead, Event, State, deposit_event, Config}
use fusotao.Token.Decimals.{transform_decimals_to_standard}
use fusotao.Token.Accounts.{fail, transfer_token}

-- The `match info` of `do_mint`: the entry with its new total, and the amount in 18 decimals.
unfoldable pub grow_total : ℕ → XToken → Result (XToken × ℕ)
grow_total amount (nep141 n a total s decimals) = do
  let unified_amount = transform_decimals_to_standard amount decimals
  grown ← ok_or (checked_add total unified_amount) (fail TokenError.insufficient_balance)
  ok (nep141 n a grown s decimals, unified_amount)
grow_total amount (erc20 n a total s decimals) = do
  let unified_amount = transform_decimals_to_standard amount decimals
  grown ← ok_or (checked_add total unified_amount) (fail TokenError.insufficient_balance)
  ok (erc20 n a grown s decimals, unified_amount)
grow_total amount (polygon n a total s decimals) = do
  let unified_amount = transform_decimals_to_standard amount decimals
  grown ← ok_or (checked_add total unified_amount) (fail TokenError.insufficient_balance)
  ok (polygon n a grown s decimals, unified_amount)
grow_total amount (bep20 n a total s decimals) = do
  let unified_amount = transform_decimals_to_standard amount decimals
  grown ← ok_or (checked_add total unified_amount) (fail TokenError.insufficient_balance)
  ok (bep20 n a grown s decimals, unified_amount)
grow_total amount (fnd10 n total) = ok (fnd10 n total, total)

-- The `match info` of `do_burn`.
unfoldable pub shrink_total : ℕ → XToken → Result (XToken × ℕ)
shrink_total amount (nep141 n a total s decimals) = do
  let unified_amount = transform_decimals_to_standard amount decimals
  left ← ok_or (checked_sub total unified_amount) (fail TokenError.insufficient_balance)
  ok (nep141 n a left s decimals, unified_amount)
shrink_total amount (erc20 n a total s decimals) = do
  let unified_amount = transform_decimals_to_standard amount decimals
  left ← ok_or (checked_sub total unified_amount) (fail TokenError.insufficient_balance)
  ok (erc20 n a left s decimals, unified_amount)
shrink_total amount (polygon n a total s decimals) = do
  let unified_amount = transform_decimals_to_standard amount decimals
  left ← ok_or (checked_sub total unified_amount) (fail TokenError.insufficient_balance)
  ok (polygon n a left s decimals, unified_amount)
shrink_total amount (bep20 n a total s decimals) = do
  let unified_amount = transform_decimals_to_standard amount decimals
  left ← ok_or (checked_sub total unified_amount) (fail TokenError.insufficient_balance)
  ok (bep20 n a left s decimals, unified_amount)
shrink_total amount (fnd10 n total) = ok (fnd10 n total, total)

-- The total that an entry records; none is read as zero.
abbrev pub total : Option XToken → ℕ
total none = 0
total (some (nep141 _ _ n _ _)) = n
total (some (erc20 _ _ n _ _)) = n
total (some (polygon _ _ n _ _)) = n
total (some (bep20 _ _ n _ _)) = n
total (some (fnd10 _ n)) = n

-- The `match token_info` of `mark_stable`.
abbrev pub with_stable : XToken → Result XToken
with_stable (nep141 n a t _ d) = ok (nep141 n a t true d)
with_stable (erc20 n a t _ d) = ok (erc20 n a t true d)
with_stable (polygon n a t _ d) = ok (polygon n a t true d)
with_stable (bep20 n a t _ d) = ok (bep20 n a t true d)
with_stable (fnd10 _ _) = err (fail TokenError.token_not_found)

module _ (c : Config) where
  unfoldable pub do_mint : ℕ → ℕ → ℕ → State c.Native → Result (State c.Native)
  do_mint token beneficiary amount s = if amount == 0 then ok s else (do
    info ← ok_or (get token s.tokens) (fail TokenError.token_not_found)
    (info', unified_amount) ← grow_total amount info
    ensure (not (unified_amount == 0)) (fail TokenError.amount_zero)
    let account = or_default (get (token, beneficiary) s.balances)
    free ← ok_or (checked_add account.free unified_amount) (fail TokenError.overflow)
    ok (
        deposit_event (Event.token_minted token beneficiary unified_amount) (record s {
          balances = insert (token, beneficiary) (record account { free = free }) s.balances;
          tokens = insert token info' s.tokens;
        })))

  unfoldable pub do_burn : ℕ → ℕ → ℕ → State c.Native → Result (ℕ × State c.Native)
  do_burn token target amount s = do
    ensure (not (amount == 0)) (fail TokenError.amount_zero)
    info ← ok_or (get token s.tokens) (fail TokenError.balance_zero)
    (info', unified_amount) ← shrink_total amount info
    ensure (not (unified_amount == 0)) (fail TokenError.amount_zero)
    account ← ok_or (get (token, target) s.balances) (fail TokenError.balance_zero)
    free ← ok_or (checked_sub account.free unified_amount) (fail TokenError.insufficient_balance)
    ok (
      amount,
      deposit_event (Event.token_burned token target unified_amount) (record s {
        balances = put (token, target) (unless_dead (record account { free = free })) s.balances;
        tokens = insert token info' s.tokens;
      }),
    )

  -- The checks on a symbol, which every arm of `create` makes.
  abbrev pub ensure_name : Bytes → Result (Unit {0})
  ensure_name name = do
    ensure (c.is_ascii name) (fail TokenError.invalid_token_name)
    ensure (leb 2 (length name) && leb (length name) 8) (fail TokenError.invalid_token_name)

  -- The arm of `create` for the tokens of Ethereum and its kin.
  abbrev pub ensure_evm : Bytes → Bytes → ℕ → Result (Unit {0})
  ensure_evm name address decimals = do
    ensure (leb decimals max_decimals) (fail TokenError.invalid_decimals)
    ensure_name name
    ensure (length address == 20) (fail TokenError.contract_error)

  -- The `match token_info` of `create`: the entry to store, and the state with the contract's name.
  unfoldable pub admit : ℕ → XToken → State c.Native → Result (XToken × State c.Native)
  admit id (nep141 name address _ _ decimals) s = do
    ensure (leb decimals max_decimals) (fail TokenError.invalid_decimals)
    ensure_name name
    ensure (ltb (length address) 120 && ltb 2 (length address)) (fail TokenError.contract_error)
    ensure (not (contains_key address s.token_by_name)) (fail TokenError.contract_error)
    ok (
      nep141 name address 0 false decimals,
      record s { token_by_name = insert address id s.token_by_name },
    )
  admit id (erc20 name address _ _ decimals) s = do
    ensure_evm name address decimals
    ok (erc20 name address 0 false decimals, s)
  admit id (polygon name address _ _ decimals) s = do
    ensure_evm name address decimals
    ok (polygon name address 0 false decimals, s)
  admit id (bep20 name address _ _ decimals) s = do
    ensure_evm name address decimals
    ok (bep20 name address 0 false decimals, s)
  admit id (fnd10 name _) s = do ensure_name name; ok (fnd10 name 0, s)

  unfoldable pub create : XToken → State c.Native → Result (ℕ × State c.Native)
  create token_info s = do
    let id = s.next_token_id
    (info, s') ← admit id token_info s
    ok (
      id,
      record s' {
        next_token_id = (s'.next_token_id + 1) % u32_mod;
        tokens = insert id info s'.tokens;
      },
    )

  unfoldable pub issue : Origin → XToken → State c.Native → Result (State c.Native)
  unfolding create
  issue origin token_info s = do
    who ← ensure_signed origin
    native ← c.burn_from who c.burn_ta_when_issue s.native
    (id, s') ← create token_info (record s { native = native })
    ok (deposit_event (Event.token_issued id (symbol token_info)) s')

  unfoldable pub mark_stable : Origin → ℕ → State c.Native → Result (State c.Native)
  mark_stable origin id s = do
    ensure (c.is_admin origin) DispatchError.bad_origin
    info ← ok_or (get id s.tokens) (fail TokenError.token_not_found)
    info' ← with_stable info
    ok (record s { tokens = insert id info' s.tokens })

  unfoldable pub transfer : Origin → ℕ → ℕ → ℕ → State c.Native → Result (State c.Native)
  transfer origin token target amount s = do
    who ← ensure_signed origin
    ensure (not (amount == 0)) (fail TokenError.balance_zero)
    to ← c.lookup target
    (_, s') ← transfer_token c who token amount to s
    ok s'

  unfoldable pub associate_token : Origin → ℕ → Bytes → ℕ → State c.Native → Result (State c.Native)
  associate_token origin chain_id contract_id token_id s = do
    ensure (c.is_admin origin) DispatchError.bad_origin
    ok (record s {
      token_by_contract = insert (chain_id, contract_id) token_id s.token_by_contract;
    })

  unfoldable pub try_mutate_issuance : ℕ → (ℕ → Result ℕ) → State c.Native → Result (State c.Native)
  try_mutate_issuance token f s =
      if token == c.native_token_id
      then (do
        issuance ← f (c.total_issuance s.native)
        ok (record s { native = c.set_issuance issuance s.native }))
      else err DispatchError.other

  unfoldable pub total_issuance : ℕ → State c.Native → ℕ
  total_issuance token s =
      if token == c.native_token_id then c.total_issuance s.native else total (get token s.tokens)
