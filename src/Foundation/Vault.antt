-- ===== src/Foundation/Vault.antt =====
-- The storage and the operations of pallets/foundation/src/lib.rs. An epoch is `Duration` blocks.
use fusotao.Prelude.{
  ℕ, zero, suc, ◌+◌, ◌-◌, ◌*◌, ◌/◌, ◌%◌, Bool, not, none, some, List, [], ◌∷◌, ltb, ◌==◌,
  if◌then◌else◌, nat_eq, pair_eq, bytes_eq, u32_mod, u128_mod,
}
use fusotao.Support.Storage.{StorageMap, get, insert, remove, contains_key}
use fusotao.Support.Dispatch.{
  FoundationError, DispatchError, Result, ◌>>=◌, ◌>>◌, ensure, Origin, ensure_signed, ok,
}

pub record FoundationData : Type 0 where
  pub delay_durations : ℕ
  pub interval_durations : ℕ
  pub times : ℕ
  pub amount : ℕ
  pub first_amount : ℕ

pub data Event : Type 0 where
  pre_locked_fund_unlocked : ℕ → ℕ → Event

-- The storage items, and the balances of pallet_balances; `events` has the newest first.
pub record State (Store : Type 0) : Type 0 where
  pub foundation : StorageMap ℕ FoundationData
  pub approvals : StorageMap (ℕ × ℕ) ℕ
  pub events : List Event
  pub balances : Store

-- What the runtime supplies. The operations are those of pallet_balances: `transfer` that may end an
-- account, and `reserve`, `unreserve` and `repatriate_reserved` to the free balance, the results of
-- the last two ignored.
pub record Config : Type 1 where
  pub Store : Type 0
  pub duration : ℕ
  pub transfer : ℕ → ℕ → ℕ → Store → Result Store
  pub reserve : ℕ → ℕ → Store → Result Store
  pub unreserve : ℕ → ℕ → Store → Store
  pub repatriate_reserved : ℕ → ℕ → ℕ → Store → Store

abbrev pub fail : FoundationError → DispatchError
fail = DispatchError.foundation

module _ (c : Config) where
  open c use {Store}

  -- The loop of `put_into_vault`, from `i` on for `n` rounds.
  unfoldable pub insert_approvals :
      ℕ → ℕ → ℕ → ℕ → FoundationData → StorageMap (ℕ × ℕ) ℕ → StorageMap (ℕ × ℕ) ℕ
  insert_approvals zero i beneficiary seller fund m = m
  insert_approvals (suc n) i beneficiary seller fund m =
      insert_approvals n (i + 1) beneficiary seller fund (
        insert
          (beneficiary, (fund.delay_durations + i * fund.interval_durations % u32_mod) % u32_mod)
          seller m)

  unfoldable pub put_into_vault :
      ℕ → Origin → ℕ → FoundationData → Bool → State Store → Result (State Store)
  unfolding insert_approvals
  put_into_vault now origin beneficiary fund need_to_approve s = do
    seller ← ensure_signed origin
    ensure (not (contains_key beneficiary s.foundation)) (fail FoundationError.already_exists)
    ensure (ltb 0 c.duration) DispatchError.panicked
    ensure (ltb (now / c.duration) fund.delay_durations) (fail FoundationError.epoch_not_reached)
    let total_amount = (fund.amount * fund.times % u128_mod + fund.first_amount) % u128_mod
    paid ← c.transfer seller beneficiary total_amount s.balances
    locked ← c.reserve beneficiary total_amount paid
    ok (record s {
      foundation = insert beneficiary fund s.foundation;
      approvals =
          if need_to_approve
          then insert_approvals fund.times 0 beneficiary seller fund s.approvals
          else s.approvals;
      balances = locked;
    })

  unfoldable pub approve : Origin → ℕ → ℕ → State Store → Result (State Store)
  approve origin beneficiary epoch s = do
    approver ← ensure_signed origin
    elim (get (beneficiary, epoch) s.approvals) [
      | none ↦ ok s
      | some a ↦ do
        ensure (a == approver) (fail FoundationError.invalid_approver)
        ok (record s { approvals = remove (beneficiary, epoch) s.approvals })
    ]

  -- An approval that nobody has lifted sends the amount back to its owner.
  unfoldable pub release : ℕ → ℕ → ℕ → State Store → State Store
  release now account amount s = elim (get (account, now) s.approvals) [
    | some approver ↦ record s {
      approvals = remove (account, now) s.approvals;
      balances = c.repatriate_reserved account approver amount s.balances;
    }
    | none ↦ record s {
      balances = c.unreserve account amount s.balances;
      events = Event.pre_locked_fund_unlocked account amount ∷ s.events;
    }
  ]

  -- `balance.times - 1`, which wraps, and the entry that is written back.
  unfoldable pub count_down : ℕ → FoundationData → State Store → State Store
  count_down account fund s =
      let left = (fund.times + u32_mod - 1) % u32_mod in
      if left == 0
      then record s { foundation = remove account s.foundation }
      else record s { foundation = insert account (record fund { times = left }) s.foundation }

  -- The body of the loop of `unlock_fund`. The remainder by an interval of zero panics.
  unfoldable pub unlock_one : ℕ → ℕ → FoundationData → State Store → Result (State Store)
  unfolding release count_down
  unlock_one now account fund s =
      if ltb fund.delay_durations now
      then (do
        ensure (ltb 0 fund.interval_durations) DispatchError.panicked
        ok (
            if (now - fund.delay_durations) % fund.interval_durations == 0
            then count_down account fund (release now account fund.amount s)
            else s))
      else if now == fund.delay_durations
      then (do
        ensure (ltb 0 fund.interval_durations) DispatchError.panicked
        ok (release now account fund.first_amount s))
      else ok s

  unfoldable pub unlock_each : ℕ → StorageMap ℕ FoundationData → State Store → Result (State Store)
  unfolding unlock_one
  unlock_each now [] s = ok s
  unlock_each now ((account, fund) ∷ rest) s = do
    s' ← unlock_one now account fund s
    unlock_each now rest s'

  unfoldable pub unlock_fund : ℕ → State Store → Result (State Store)
  unfolding unlock_each
  unlock_fund now s = unlock_each now s.foundation s

  -- `initialize`, the hook that opens block `now`.
  unfoldable pub initialize : ℕ → State Store → Result (State Store)
  unfolding unlock_fund
  initialize now s = do
    ensure (ltb 0 c.duration) DispatchError.panicked
    if now % c.duration == 0 then unlock_fund (now / c.duration) s else ok s
