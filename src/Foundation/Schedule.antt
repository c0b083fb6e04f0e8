-- ===== src/Foundation/Schedule.antt =====
-- The schedule of one fund of pallets/foundation on its own: what an epoch leaves of it and pays out.
use fusotao.Prelude.{
  ℕ, zero, suc, ◌+◌, ◌-◌, ◌*◌, ◌%◌, ◌<◌, ◌≡◌, refl, inl, inr, Bool, true, false, ◌&&◌, Option, none,
  some, arith, ltb, ◌==◌, if◌then◌else◌, Bool-cases,
}
use native.Mathlib.Nat.{mod-eq_of_lt, mod_self, mul-add-mod_self_right}
use fusotao.Foundation.Vault.{FoundationData}

-- An epoch after the delay that a whole number of intervals has passed in.
abbrev pub is_due : ℕ → FoundationData → Bool
is_due now f = ltb f.delay_durations now && (now - f.delay_durations) % f.interval_durations == 0

unfoldable pub tick : ℕ → Option FoundationData → Option FoundationData
tick now none = none
tick now (some f) =
    if is_due now f
    then (if f.times == 1 then none else some (record f { times = f.times - 1 }))
    else some f

unfoldable pub pays : ℕ → Option FoundationData → ℕ
pays now none = 0
pays now (some f) =
    if is_due now f then f.amount else (if now == f.delay_durations then f.first_amount else 0)

-- `n` epochs from `now` on.
unfoldable pub ticks : ℕ → ℕ → Option FoundationData → Option FoundationData
ticks zero now o = o
ticks (suc n) now o = ticks n (now + 1) (tick now o)

unfoldable pub paid : ℕ → ℕ → Option FoundationData → ℕ
paid zero now o = 0
paid (suc n) now o = pays now o + paid n (now + 1) (tick now o)

pub none-ticks : (n now : ℕ) → (ticks n now none ≡ none) × (paid n now none ≡ 0)
unfolding ticks paid tick pays
none-ticks zero now = (refl, refl)
none-ticks (suc n) now = ground (arith, none-ticks n (now + 1))

rounds :
    (i q r : ℕ)
    → r < i
    → (suc r ≡ i → ((q * i + suc r) % i == 0) ≡ true)
      × (suc r < i → ((q * i + suc r) % i == 0) ≡ false)
rounds i q r h = (
  λ e. rw (mul-add-mod_self_right q i (suc r), e, mod_self i) refl,
  λ l. rw (mul-add-mod_self_right q i (suc r), mod-eq_of_lt l) (ground arith),
)

pub due-tick :
    (now : ℕ) (f : FoundationData)
    → is_due now f ≡ true
    → (tick now (some f) ≡ (if f.times == 1 then none else some (record f { times = f.times - 1 })))
      × (pays now (some f) ≡ f.amount)
unfolding tick pays
due-tick now f h = (rw h refl, rw h refl)

pub stays-tick :
    (now : ℕ) (f : FoundationData)
    → is_due now f ≡ false
    → (tick now (some f) ≡ some f)
      × (pays now (some f) ≡ (if now == f.delay_durations then f.first_amount else 0))
unfolding tick pays
stays-tick now f h = (rw h refl, rw h refl)

pub idle-tick :
    (now : ℕ) (f : FoundationData)
    → is_due now f ≡ false
    → f.delay_durations < now
    → (tick now (some f) ≡ some f) × (pays now (some f) ≡ 0)
unfolding tick pays
idle-tick now f h l = (rw h refl, rw h (ground arith))

-- `r` epochs into an interval, the rest of the schedule releases every amount left and ends.
pub ticks_rest :
    (n now q r t : ℕ) (f : FoundationData)
    → now ≡ f.delay_durations + 1 + (q * f.interval_durations + r)
    → f.times ≡ suc t
    → r < f.interval_durations
    → n + r ≡ suc t * f.interval_durations
    → (ticks n now (some f) ≡ none) × (paid n now (some f) ≡ suc t * f.amount)
unfolding ticks paid
ticks_rest zero now q r t f at e h k = absurd (omega (arith, h, k))
ticks_rest (suc n) now q r zero f at e h k =
    let past : now - f.delay_durations ≡ q * f.interval_durations + suc r = omega arith in
    elim (Bool-cases (suc r == f.interval_durations)) [
      | inl last ↦
          let due : is_due now f ≡ true =
            rw (past, (rounds f.interval_durations q r h).0 (ground arith)) (ground arith) in
          let (left, amount) = due-tick now f due in
          let one : (f.times == 1) ≡ true = ground arith in
          let (ends, rest) = none-ticks n (now + 1) in
          rw (left, amount, one) (ends, omega (arith, rest))
      | inr more ↦
          let due : is_due now f ≡ false =
            rw (past, (rounds f.interval_durations q r h).1 (ground arith)) (ground arith) in
          let (same, nothing) = idle-tick now f due (omega arith) in
          let (ends, rest) =
            ticks_rest n (now + 1) q (suc r) zero f (omega arith) e (ground arith) (omega arith) in
          rw (same, nothing) (ends, omega (arith, rest))
    ]
ticks_rest (suc n) now q r (suc u) f at e h k =
    let past : now - f.delay_durations ≡ q * f.interval_durations + suc r = omega arith in
    elim (Bool-cases (suc r == f.interval_durations)) [
      | inl last ↦
          let due : is_due now f ≡ true =
            rw (past, (rounds f.interval_durations q r h).0 (ground arith)) (ground arith) in
          let (left, amount) = due-tick now f due in
          let full : suc r ≡ f.interval_durations = ground arith in
          let more : (f.times == 1) ≡ false = ground arith in
          let f' : FoundationData = record f { times = f.times - 1 } in
          let (ends, rest) =
            ticks_rest n (now + 1) (suc q) 0 u f' (omega (arith, full)) (omega arith)
              (omega (arith, h)) (omega (arith, k, full)) in
          rw (left, amount, more) (ends, omega (arith, rest))
      | inr more ↦
          let due : is_due now f ≡ false =
            rw (past, (rounds f.interval_durations q r h).1 (ground arith)) (ground arith) in
          let (same, nothing) = idle-tick now f due (omega arith) in
          let (ends, rest) =
            ticks_rest n (now + 1) q (suc r) (suc u) f (omega arith) e (ground arith)
              (omega arith) in
          rw (same, nothing) (ends, omega (arith, rest))
    ]
