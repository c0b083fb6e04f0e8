-- ===== src/Foundation/Unlock.antt =====
-- `unlock_fund` of pallets/foundation/src/lib.rs follows the schedule of every fund on its own.
use fusotao.Prelude.{
  ℕ, ◌+◌, ◌-◌, ◌%◌, ◌≡◌, refl, ◌≢◌, inl, inr, true, false, some, arith, ltb, ◌==◌, if◌then◌else◌,
  Bool-cases, nat_eq, pair_eq, bytes_eq, u32_mod,
}
use fusotao.Support.Storage.{get, put, get-put_ne, IsMap, put-IsMap, get-put_self}
use fusotao.Support.Dispatch.{ok}
use fusotao.Foundation.Vault.{FoundationData, State, Config, release, count_down, unlock_one}
use fusotao.Foundation.Schedule.{is_due, tick, pays, due-tick, stays-tick}
use fusotao.Foundation.Released.{
  ReservedView, IsReady, released, IsFree, release-foundation, release-IsFree, release-released,
  release-reserved,
}

module _ (c : Config) (v : ReservedView c) where
  open c use {Store}

  -- What the loop does with one fund: the entry follows the schedule, the others stay, and what the
  -- schedule pays leaves the reserved balance and is what the events say.
  pub record Follows (now account : ℕ) (f : FoundationData) (s s' : State Store) : Type 0 where
    pub entry : get account s'.foundation ≡ tick now (some f)
    pub others : (k : ℕ) → account ≢ k → get k s'.foundation ≡ get k s.foundation
    pub map_ : IsMap s'.foundation
    pub free : (k : ℕ) → IsFree c k s → IsFree c k s'
    pub pays_ :
        (k : ℕ)
        → IsFree c k s
        → released k s'.events
          ≡ (if account == k then pays now (some f) else 0) + released k s.events
    pub leaves_ :
        (k : ℕ)
        → IsFree c k s
        → v.reserved k s'.balances
          ≡ v.reserved k s.balances - (if account == k then pays now (some f) else 0)

  -- Counting down writes what the schedule leaves.
  count_down-tick :
      (now account : ℕ) (f : FoundationData) (s : State Store)
      → IsReady f
      → is_due now f ≡ true
      → count_down c account f s
        ≡ record s { foundation = put account (tick now (some f)) s.foundation }
  unfolding count_down
  count_down-tick now account f s ready due =
      let (next_, amount) = due-tick now f due in
      let less : (f.times + u32_mod - 1) % u32_mod ≡ f.times - 1 =
        omega (arith, ready.left, ready.narrow) in
      elim (Bool-cases (f.times == 1)) [
        | inl last ↦
            let zero_ : (f.times - 1 == 0) ≡ true = ground arith in
            rw (next_, last, count_down, less, zero_) refl
        | inr more ↦
            let some_ : (f.times - 1 == 0) ≡ false = ground arith in
            rw (next_, more, count_down, less, some_) refl
      ]

  count_down-Follows :
      (now account : ℕ) (f : FoundationData) (s : State Store)
      → IsMap s.foundation
      → IsReady f
      → is_due now f ≡ true
      → Follows now account f s (count_down c account f (release c now account f.amount s))
  count_down-Follows now account f s m ready due =
      let s1 = release c now account f.amount s in
      let kept = release-foundation c now account f.amount s in
      rw (count_down-tick now account f s1 ready due) (record {
        entry = rw kept (get-put_self account (tick now (some f)) s.foundation m);
        others = λ k n. rw kept (get-put_ne account k (tick now (some f)) s.foundation n);
        map_ = rw kept (put-IsMap account (tick now (some f)) s.foundation m);
        free = λ k h. release-IsFree c now account f.amount k s h;
        pays_ = λ k h. rw (due-tick now f due).1 (release-released c now account f.amount k s h);
        leaves_ =
            λ k h. rw (due-tick now f due).1 (release-reserved c v now account f.amount k s h);
      })

  unpaid-Follows :
      (now account : ℕ) (f : FoundationData) (s : State Store)
      → IsMap s.foundation
      → get account s.foundation ≡ some f
      → is_due now f ≡ false
      → (now == f.delay_durations) ≡ false
      → Follows now account f s s
  unpaid-Follows now account f s m found idle apart =
      let (same, amount) = stays-tick now f idle in
      record {
        entry = rw same found;
        others = λ k n. refl;
        map_ = m;
        free = λ k h. h;
        pays_ = λ k h. rw (amount, apart) (ground arith);
        leaves_ = λ k h. rw (amount, apart) (ground arith);
      }

  first-Follows :
      (now account : ℕ) (f : FoundationData) (s : State Store)
      → IsMap s.foundation
      → get account s.foundation ≡ some f
      → is_due now f ≡ false
      → (now == f.delay_durations) ≡ true
      → Follows now account f s (release c now account f.first_amount s)
  first-Follows now account f s m found idle first =
      let (same, amount) = stays-tick now f idle in
      let kept = release-foundation c now account f.first_amount s in
      record {
        entry = rw (same, kept) found;
        others = λ k n. rw kept refl;
        map_ = rw kept m;
        free = λ k h. release-IsFree c now account f.first_amount k s h;
        pays_ = λ k h. rw (amount, first) (release-released c now account f.first_amount k s h);
        leaves_ = λ k h. rw (amount, first) (release-reserved c v now account f.first_amount k s h);
      }

  pub unlock_one-Follows :
      (now account : ℕ) (f : FoundationData) (s : State Store)
      → IsMap s.foundation
      → get account s.foundation ≡ some f
      → IsReady f
      → (s' : State Store) × (unlock_one c now account f s ≡ ok s') × Follows now account f s s'
  unfolding unlock_one count_down
  unlock_one-Follows now account f s m found ready =
      let spaced : ltb 0 f.interval_durations ≡ true = ground (arith, ready.spaced) in
      elim (Bool-cases (is_due now f)) [
        | inl due ↦
            let late : ltb f.delay_durations now ≡ true = ground arith in
            let whole : ((now - f.delay_durations) % f.interval_durations == 0) ≡ true =
              ground arith in
            (
              count_down c account f (release c now account f.amount s),
              rw (unlock_one, late, spaced, whole) refl,
              count_down-Follows now account f s m ready due,
            )
        | inr idle ↦ elim (Bool-cases (ltb f.delay_durations now)) [
          | inl late ↦
              let part : ((now - f.delay_durations) % f.interval_durations == 0) ≡ false =
                ground arith in
              let apart : (now == f.delay_durations) ≡ false = ground arith in
              (
                s,
                rw (unlock_one, late, spaced, part) refl,
                unpaid-Follows now account f s m found idle apart,
              )
          | inr early ↦ elim (Bool-cases (now == f.delay_durations)) [
            | inl first ↦ (
              release c now account f.first_amount s,
              rw (unlock_one, early, first, spaced) refl,
              first-Follows now account f s m found idle first,
            )
            | inr apart ↦ (
              s,
              rw (unlock_one, early, apart) refl,
              unpaid-Follows now account f s m found idle apart,
            )
          ]
        ]
      ]
