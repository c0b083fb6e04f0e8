-- ===== src/Foundation/Epochs.antt =====
-- The hook of pallets/foundation epoch after epoch, and where it panics.
use native.Mathlib.Nat.{zero-add, suc-add}
use fusotao.Prelude.{
  ℕ, zero, suc, ◌+◌, ◌-◌, ◌*◌, ◌%◌, ◌≤◌, ◌≡◌, refl, inl, inr, Bool, true, false, none, some, [],
  ◌∷◌, arith, ◌==◌, Bool-cases, nat_eq, pair_eq, bytes_eq, u128_mod,
}
use fusotao.Support.Storage.{StorageMap, get, get-insert_self, IsMap}
use fusotao.Support.Dispatch.{
  DispatchError, Result, ◌>>=◌, Origin, Result-cases, ok, err, root, unsigned, signed,
}
use fusotao.Foundation.Vault.{
  FoundationData, State, Config, put_into_vault, unlock_one, unlock_each, unlock_fund,
}
use fusotao.Foundation.Schedule.{is_due, ticks, paid, stays-tick, ticks_rest}
use fusotao.Foundation.Released.{ReservedView, IsReady, released, IsFree}
use fusotao.Foundation.Release.{AllReady, unlock_fund-tick}

-- Epochs before the delay leave a fund alone, and the epoch of the delay pays the first amount.
ticks_wait :
    (w n now : ℕ) (f : FoundationData)
    → now + w ≡ f.delay_durations
    → (ticks (w + n) now (some f) ≡ ticks n f.delay_durations (some f))
      × (paid (w + n) now (some f) ≡ paid n f.delay_durations (some f))
unfolding ticks paid
ticks_wait zero n now f h =
    let e : now ≡ f.delay_durations = omega arith in rw (e, zero-add) (refl, refl)
ticks_wait (suc w) n now f h =
    let idle : is_due now f ≡ false = ground arith in
    let (same, amount) = stays-tick now f idle in
    let early : (now == f.delay_durations) ≡ false = ground arith in
    let (ends, rest) = ticks_wait w n (now + 1) f (omega arith) in
    rw (suc-add, ticks, paid, same, amount, early) (ends, omega (arith, rest))

ticks_all :
    (now n : ℕ) (f : FoundationData)
    → IsReady f
    → now ≤ f.delay_durations
    → n ≡ f.delay_durations - now + (1 + f.times * f.interval_durations)
    → (ticks n now (some f) ≡ none) × (paid n now (some f) ≡ f.first_amount + f.times * f.amount)
unfolding ticks paid
ticks_all now n f ready before h =
    let w = f.delay_durations - now in
    let m = f.times * f.interval_durations in
    let e : n ≡ w + suc m = omega arith in
    let (waits, pays_) = ticks_wait w (suc m) now f (omega arith) in
    let idle : is_due f.delay_durations f ≡ false = ground arith in
    let (same, amount) = stays-tick f.delay_durations f idle in
    let now_ : (f.delay_durations == f.delay_durations) ≡ true = ground arith in
    let one : f.times ≡ suc (f.times - 1) = omega (arith, ready.left) in
    let (ends, rest) =
      ticks_rest m (f.delay_durations + 1) 0 0 (f.times - 1) f (omega arith) one ready.spaced
        (rw (← one) (omega arith)) in
    let rest' = rw (← one) at rest in
    rw (e, waits, pays_, ticks, paid, same, amount, now_) (ends, omega (arith, rest'))

module _ (c : Config) where
  open c use {Store}

  -- `n` epochs from `now` on; a panic ends them.
  unfoldable pub unlock_from : ℕ → ℕ → State Store → Result (State Store)
  unfolding unlock_fund
  unlock_from zero now s = ok s
  unlock_from (suc n) now s = unlock_fund c now s >>= λ s'. unlock_from n (now + 1) s'

module _ (c : Config) (v : ReservedView c) where
  open c use {Store}

  unlock_from-ticks :
      (n now k : ℕ) (s : State Store)
      → IsMap s.foundation
      → AllReady s.foundation
      → IsFree c k s
      → (s' : State Store) × (unlock_from c n now s ≡ ok s')
        × (get k s'.foundation ≡ ticks n now (get k s.foundation))
        × (released k s'.events ≡ paid n now (get k s.foundation) + released k s.events)
        × (v.reserved k s'.balances ≡ v.reserved k s.balances - paid n now (get k s.foundation))
  unfolding unlock_from ticks paid
  unlock_from-ticks zero now k s m ready free = (s, refl, refl, omega arith, omega arith)
  unlock_from-ticks (suc n) now k s m ready free =
      let (s1, done, ticked, frees, pays1, m1, ready1) = unlock_fund-tick c v now s m ready in
      let (s2, done', ticked', pays2, leaves2) =
        unlock_from-ticks n (now + 1) k s1 m1 ready1 (frees k free) in
      let p2 = rw (ticked k) at pays2 in
      let l2 = rw (ticked k) at leaves2 in
      (
        s2,
        rw done done',
        rw (← ticked k) ticked',
        omega (arith, p2, (pays1 k free).0),
        omega (arith, l2, (pays1 k free).1),
      )

  -- A fund that waits for no approval is released in full, and only as much: from any epoch up to its
  -- delay, after the delay, one more epoch and `times` intervals the entry is gone, the reserved balance
  -- is less by the first amount and `times` amounts, as far as it goes, and the events name as much more
  -- than before. The hook does not fail on the way. The conditions: each account has one fund, every
  -- fund has an interval and a count above zero, the count below 2^32, and `unreserve` and
  -- `repatriate_reserved` move reserved balances as documented.
  pub unlock_from-released :
      (n now k : ℕ) (f : FoundationData) (s : State Store)
      → IsMap s.foundation
      → AllReady s.foundation
      → get k s.foundation ≡ some f
      → IsFree c k s
      → now ≤ f.delay_durations
      → n ≡ f.delay_durations - now + (1 + f.times * f.interval_durations)
      → (s' : State Store) × (unlock_from c n now s ≡ ok s')
        × (get k s'.foundation ≡ none)
        × (released k s'.events ≡ f.first_amount + f.times * f.amount + released k s.events)
        × (v.reserved k s'.balances
            ≡ v.reserved k s.balances - (f.first_amount + f.times * f.amount))
  unlock_from-released n now k f s m ready found free before enough =
      let (s', done, ticked, pays_, leaves_) = unlock_from-ticks n now k s m ready free in
      let (gone, all_) = ticks_all now n f (ready k f found) before enough in
      let ticked' = rw found at ticked in
      let pays' = rw (found, all_) at pays_ in
      let leaves' = rw (found, all_) at leaves_ in (s', done, rw ticked' gone, pays', leaves')

module _ (c : Config) where
  open c use {Store}

  unlock_one-panics :
      (now account : ℕ) (f : FoundationData) (s : State Store) (e : DispatchError)
      → unlock_one c now account f s ≡ err e
      → e ≡ DispatchError.panicked
  unfolding unlock_one
  unlock_one-panics now account f s e h = ground arith

  unlock_one-never :
      (now account : ℕ) (f : FoundationData) (s : State Store)
      → f.interval_durations ≡ 0
      → f.delay_durations ≤ now
      → unlock_one c now account f s ≡ err DispatchError.panicked
  unfolding unlock_one
  unlock_one-never now account f s never due = ground arith

  unlock_each-panics :
      (now k : ℕ) (f : FoundationData) (rest : StorageMap ℕ FoundationData) (s : State Store)
      → get k rest ≡ some f
      → f.interval_durations ≡ 0
      → f.delay_durations ≤ now
      → unlock_each c now rest s ≡ err DispatchError.panicked
  unfolding unlock_each get
  unlock_each-panics now k f [] s found never due = cc
  unlock_each-panics now k f ((a, g) ∷ rest) s found never due =
      elim (Result-cases (unlock_one c now a g s)) [
        | inl (e, failed) ↦ rw (failed, unlock_one-panics now a g s e failed) refl
        | inr (s1, done) ↦ elim (Bool-cases (a == k)) [
          | inl same ↦
              let e : g ≡ f = ground arith in
              let stops = unlock_one-never now a f s never due in
              let done' = rw e at done in absurd (ground arith)
          | inr apart ↦
              let found' : get k rest ≡ some f = rw apart at found in
              rw done (unlock_each-panics now k f rest s1 found' never due)
        ]
      ]

  put_into_vault-found :
      (now : ℕ) (origin : Origin) (beneficiary : ℕ) (f : FoundationData) (b : Bool)
      (s s' : State Store)
      → put_into_vault c now origin beneficiary f b s ≡ ok s'
      → get beneficiary s'.foundation ≡ some f
  unfolding put_into_vault
  put_into_vault-found now root beneficiary f b s s' h = cc
  put_into_vault-found now unsigned beneficiary f b s s' h = cc
  put_into_vault-found now (signed who) beneficiary f b s s' h =
      let total = (f.amount * f.times % u128_mod + f.first_amount) % u128_mod in
      elim (Result-cases (c.transfer who beneficiary total s.balances)) [
        | inl (e, failed) ↦ ground arith
        | inr (x, moved) ↦ elim (Result-cases (c.reserve beneficiary total x)) [
          | inl (e, failed) ↦ ground arith
          | inr (y, locked) ↦ ground (arith, get-insert_self beneficiary f s.foundation)
        ]
      ]

  -- In the state that a put into the vault of a fund with an interval of zero leaves, the hook panics at
  -- the epoch of its delay and at every later one.
  pub unlock_fund-put_into_vault :
      (now epoch : ℕ) (origin : Origin) (beneficiary : ℕ) (f : FoundationData) (b : Bool)
      (s s' : State Store)
      → put_into_vault c now origin beneficiary f b s ≡ ok s'
      → f.interval_durations ≡ 0
      → f.delay_durations ≤ epoch
      → unlock_fund c epoch s' ≡ err DispatchError.panicked
  unfolding unlock_fund
  unlock_fund-put_into_vault now epoch origin beneficiary f b s s' h never due =
      unlock_each-panics epoch beneficiary f s'.foundation s'
        (put_into_vault-found now origin beneficiary f b s s' h) never due
