-- ===== src/Token/Accounts.antt =====
-- The operations on accounts of pallets/token/src/lib.rs: `impl Token` (transfers and the mutation
-- of an account) and `impl ReservableToken`.
use fusotao.Prelude.{
  ℕ, Bool, true, ◌==◌, leb, if◌then◌else◌, checked_add, checked_sub, nat_eq, pair_eq,
}
use fusotao.Support.Storage.{get, insert, put}
use fusotao.Support.Dispatch.{Result, ok, ◌>>=◌, ◌>>◌, ensure, ok_or, TokenError, DispatchError}
use fusotao.Support.Asset.{Account, BalanceStatus}
use fusotao.Token.Types.{or_default, unless_dead, Event, State, deposit_event, Config}

abbrev pub fail : TokenError → DispatchError
fail = DispatchError.token

module _ (c : Config) where
  unfoldable pub free_balance : ℕ → ℕ → State c.Native → ℕ
  free_balance token who s =
      if token == c.native_token_id
      then c.free_balance who s.native
      else (or_default (get (token, who) s.balances)).free

  unfoldable pub reserved_balance : ℕ → ℕ → State c.Native → ℕ
  reserved_balance token who s =
      if token == c.native_token_id
      then c.reserved_balance who s.native
      else (or_default (get (token, who) s.balances)).reserved

  unfoldable pub can_reserve : ℕ → ℕ → ℕ → State c.Native → Bool
  unfolding free_balance
  can_reserve token who value s =
      if value == 0
      then true
      else if token == c.native_token_id
      then c.can_reserve who value s.native
      else leb value (free_balance token who s)

  -- The part of `transfer_token` behind its early returns. The inner `try_mutate_exists` writes the
  -- target before the outer one writes the origin.
  unfoldable pub transfer_between : ℕ → ℕ → ℕ → ℕ → State c.Native → Result (ℕ × State c.Native)
  transfer_between origin token amount target s = do
    from ← ok_or (get (token, origin) s.balances) (fail TokenError.balance_zero)
    left ← ok_or (checked_sub from.free amount) (fail TokenError.insufficient_balance)
    let to = or_default (get (token, target) s.balances)
    grown ← ok_or (checked_add to.free amount) (fail TokenError.overflow)
    let credited = insert (token, target) (record to { free = grown }) s.balances
    let debited = put (token, origin) (unless_dead (record from { free = left })) credited
    ok (
      amount,
      deposit_event (Event.token_transfered token origin target amount)
          (record s { balances = debited }),
    )

  unfoldable pub transfer_token : ℕ → ℕ → ℕ → ℕ → State c.Native → Result (ℕ × State c.Native)
  unfolding transfer_between
  transfer_token origin token amount target s =
      if amount == 0
      then ok (amount, s)
      else if origin == target
      then ok (amount, s)
      else if token == c.native_token_id
      then (do
        native ← c.transfer origin target amount s.native
        ok (amount, record s { native = native }))
      else transfer_between origin token amount target s

  -- The closure may change the state too, as the one that pays a reward does. Every caller's closure
  -- returns `()`, so the result is the state alone.
  unfoldable pub try_mutate_account :
      ℕ
      → ℕ
      → (Account → State c.Native → Result (Account × State c.Native))
      → State c.Native
      → Result (State c.Native)
  try_mutate_account token who f s =
      if token == c.native_token_id
      then (do
        let b : Account = record {
          free = c.free_balance who s.native;
          reserved = c.reserved_balance who s.native;
        }
        (b', s') ← f b s
        native ← c.set_account who b' s'.native
        ok (record s' { native = native }))
      else (do
        (b', s') ← f (or_default (get (token, who) s.balances)) s
        ok (record s' { balances = put (token, who) (unless_dead b') s'.balances }))

  unfoldable pub reserve : ℕ → ℕ → ℕ → State c.Native → Result (State c.Native)
  reserve token who value s =
      if value == 0
      then ok s
      else if token == c.native_token_id
      then (do native ← c.reserve who value s.native; ok (record s { native = native }))
      else (do
        account ← ok_or (get (token, who) s.balances) (fail TokenError.balance_zero)
        free ← ok_or (checked_sub account.free value) (fail TokenError.insufficient_balance)
        reserved ← ok_or (checked_add account.reserved value) (fail TokenError.overflow)
        ok (
            deposit_event (Event.token_reserved token who value) (record s {
              balances =
                  insert (token, who) (record { free = free; reserved = reserved }) s.balances;
            })))

  unfoldable pub unreserve : ℕ → ℕ → ℕ → State c.Native → Result (State c.Native)
  unreserve token who value s =
      if value == 0
      then ok s
      else if token == c.native_token_id
      then (do
        ensure (leb value (c.reserved_balance who s.native)) (fail TokenError.insufficient_balance)
        ok (record s { native = c.unreserve who value s.native }))
      else (do
        account ← ok_or (get (token, who) s.balances) (fail TokenError.balance_zero)
        reserved ← ok_or (checked_sub account.reserved value) (fail TokenError.insufficient_balance)
        free ← ok_or (checked_add account.free value) (fail TokenError.overflow)
        ok (
            deposit_event (Event.token_unreserved token who value) (record s {
              balances =
                  insert (token, who) (record { free = free; reserved = reserved }) s.balances;
            })))

  -- The beneficiary's account after the `match status` of `repatriate_reserved`.
  abbrev pub receive : BalanceStatus → ℕ → Account → Result Account
  receive BalanceStatus.free value a = do
    free ← ok_or (checked_add a.free value) (fail TokenError.overflow)
    ok (record a { free = free })
  receive BalanceStatus.reserved value a = do
    reserved ← ok_or (checked_add a.reserved value) (fail TokenError.overflow)
    ok (record a { reserved = reserved })

  -- `repatriate_reserved` between two accounts of a token of this pallet.
  unfoldable pub repatriate_between :
      ℕ → ℕ → ℕ → ℕ → BalanceStatus → State c.Native → Result (State c.Native)
  repatriate_between token slashed beneficiary value status s = do
    from ← ok_or (get (token, slashed) s.balances) (fail TokenError.balance_zero)
    left ← ok_or (checked_sub from.reserved value) (fail TokenError.insufficient_balance)
    to ← receive status value (or_default (get (token, beneficiary) s.balances))
    let credited = insert (token, beneficiary) to s.balances
    let debited = put (token, slashed) (unless_dead (record from { reserved = left })) credited
    ok (
        deposit_event (Event.token_repatriated token slashed beneficiary value)
          (record s { balances = debited }))

  -- The `match status` where the slashed account is its own beneficiary.
  abbrev pub repatriate_self : ℕ → ℕ → ℕ → BalanceStatus → State c.Native → Result (State c.Native)
  repatriate_self token who value BalanceStatus.free s = unreserve token who value s
  repatriate_self token who value BalanceStatus.reserved s = reserve token who value s

  unfoldable pub repatriate_reserved :
      ℕ → ℕ → ℕ → ℕ → BalanceStatus → State c.Native → Result (State c.Native)
  unfolding repatriate_between
  repatriate_reserved token slashed beneficiary value status s =
      if token == c.native_token_id
      then (do
        ensure (leb value (c.reserved_balance slashed s.native))
            (fail TokenError.insufficient_balance)
        native ← c.repatriate_reserved slashed beneficiary value status s.native
        ok (record s { native = native }))
      else if slashed == beneficiary
      then repatriate_self token slashed value status s
      else repatriate_between token slashed beneficiary value status s
