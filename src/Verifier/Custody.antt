-- ===== src/Verifier/Custody.antt =====
-- `impl Custody` of pallets/verifier/src/lib.rs: a user places funds under a dominator, and asks for
-- them back.
use fusotao.Prelude.{
  ℕ, not, Option, none, some, ◌==◌, ltb, if◌then◌else◌, checked_add, nat_eq, pair_eq,
}
use fusotao.Support.Storage.{get, insert, remove, contains_key}
use fusotao.Support.Dispatch.{
  Result, ok, ◌>>=◌, ◌>>◌, ensure, ok_or, VerifierError, Origin, ensure_signed,
}
use fusotao.Support.Constants.{
  reserve_for_authorizing, reserve_for_authorizing_stash, dominator_registered, dominator_active,
  dominator_evicted,
}
use fusotao.Verifier.Types.{
  ReserveKey, Receipt, authorize, revoke, revoke_with_callback, Event, State, deposit_event, Config,
  fail, or_zero,
}
use fusotao.Verifier.Reserves.{reserved, reserve, unreserve, has_authorized_morethan}

module _ (c : Config) where
  open c use {asset}

  unfoldable pub authorize_to : ℕ → ℕ → ℕ → ℕ → ℕ → State asset.Store → Result (State asset.Store)
  authorize_to now fund_owner dex token_id amount s = do
    dominator ← ok_or (get dex s.dominators) (fail VerifierError.dominator_not_found)
    ensure (dominator.status == dominator_active) (fail VerifierError.dominator_inactive)
    ensure (not (contains_key (dex, fund_owner) s.receipts))
        (fail VerifierError.receipt_already_exists)
    ensure (asset.can_reserve token_id fund_owner amount s.assets)
        (fail VerifierError.insufficient_balance)
    s' ← reserve c reserve_for_authorizing_stash fund_owner token_id amount dex s
    ok (
        deposit_event (Event.token_hosted fund_owner dex token_id amount) (record s' {
          receipts = insert (dex, fund_owner) (authorize token_id amount now) s'.receipts;
        }))

  -- In a revocation from an evicted dominator, what waits in the stash joins the confirmed reserve.
  unfoldable pub merge_stash : ℕ → ℕ → ℕ → State asset.Store → Result (State asset.Store)
  merge_stash fund_owner token_id dominator_id s = do
    let stash : ReserveKey = ((reserve_for_authorizing_stash, (fund_owner, token_id)), dominator_id)
    let confirmed : ReserveKey = ((reserve_for_authorizing, (fund_owner, token_id)), dominator_id)
    let av = or_zero (get stash s.reserves)
    if ltb 0 av
        then (do
          grown ←
              ok_or (checked_add (or_zero (get confirmed s.reserves)) av)
                (fail VerifierError.overflow)
          ok (record s { reserves = remove stash (insert confirmed grown s.reserves) }))
        else ok (record s { reserves = remove stash s.reserves })

  -- `revoke_from` behind its checks, by the dominator's status.
  unfoldable pub revoke_evicted : ℕ → ℕ → ℕ → ℕ → State asset.Store → Result (State asset.Store)
  unfolding merge_stash
  revoke_evicted fund_owner dominator_id token_id amount s = do
    s₁ ← merge_stash fund_owner token_id dominator_id s
    s₂ ← unreserve c reserve_for_authorizing fund_owner token_id amount dominator_id s₁
    ok (record s₂ { receipts = remove (dominator_id, fund_owner) s₂.receipts })

  abbrev pub revocation : ℕ → ℕ → ℕ → Option ℕ → Receipt
  revocation token_id amount now none = revoke token_id amount now
  revocation token_id amount now (some callback) = revoke_with_callback token_id amount now callback

  unfoldable pub revoke_receipt :
      ℕ → ℕ → ℕ → ℕ → ℕ → Option ℕ → State asset.Store → Result (State asset.Store)
  revoke_receipt now fund_owner dominator_id token_id amount callback s = do
    ensure (not (contains_key (dominator_id, fund_owner) s.receipts))
        (fail VerifierError.receipt_already_exists)
    ok (record s {
      receipts =
          insert (dominator_id, fund_owner) (revocation token_id amount now callback) s.receipts;
    })

  -- `amount.unwrap_or(..)`
  abbrev pub revoked_amount : Option ℕ → ℕ → ℕ → ℕ → State asset.Store → ℕ
  revoked_amount (some amount) fund_owner token_id dominator_id s = amount
  revoked_amount none fund_owner token_id dominator_id s =
      reserved c reserve_for_authorizing fund_owner token_id dominator_id s

  unfoldable pub revoke_from :
      ℕ → ℕ → ℕ → ℕ → Option ℕ → Option ℕ → State asset.Store → Result (State asset.Store)
  unfolding revoke_evicted revoke_receipt has_authorized_morethan
  revoke_from now fund_owner dominator_id token_id maybe_amount callback s =
      let amount = revoked_amount maybe_amount fund_owner token_id dominator_id s in
      if amount == 0 then ok s else (do
        ensure (has_authorized_morethan c fund_owner token_id amount dominator_id s)
            (fail VerifierError.insufficient_balance)
        dominator ← ok_or (get dominator_id s.dominators) (fail VerifierError.dominator_not_found)
        ensure (not (dominator.status == dominator_registered))
            (fail VerifierError.dominator_status_invalid)
        s' ←
            (if dominator.status == dominator_evicted
              then revoke_evicted fund_owner dominator_id token_id amount s
              else revoke_receipt now fund_owner dominator_id token_id amount callback s)
        ok (deposit_event (Event.token_revoked fund_owner dominator_id token_id amount) s'))

  -- The dispatchables `authorize`, `revoke` and `revoke_with_callback`.
  unfoldable pub authorize_call :
      ℕ → Origin → ℕ → ℕ → ℕ → State asset.Store → Result (State asset.Store)
  authorize_call now origin dominator token_id amount s = do
    fund_owner ← ensure_signed origin
    dex ← c.lookup dominator
    authorize_to now fund_owner dex token_id amount s

  unfoldable pub revoke_call :
      ℕ → Origin → ℕ → ℕ → ℕ → State asset.Store → Result (State asset.Store)
  revoke_call now origin dominator token_id amount s = do
    fund_owner ← ensure_signed origin
    dex ← c.lookup dominator
    revoke_from now fund_owner dex token_id (some amount) none s

  unfoldable pub revoke_with_callback_call :
      ℕ → Origin → ℕ → ℕ → ℕ → ℕ → State asset.Store → Result (State asset.Store)
  revoke_with_callback_call now origin dominator token_id amount callback s = do
    fund_owner ← ensure_signed origin
    dex ← c.lookup dominator
    revoke_from now fund_owner dex token_id (some amount) (some callback) s
