-- ===== src/Token/Rounding.antt =====
-- What converting an amount between an external number of decimals and 18 keeps and loses.
use native.Mathlib.Nat.{
  pow-suc, one-le-pow, div-div-eq-div-mul, mod-eq_of_lt, mod-lt, add-mul-mod_self_left, div-add-mod,
  mul-div_cancel, div-mul-le_self, lt-div-mul-add,
}
use fusotao.Prelude.{
  ℕ, zero, suc, ◌+◌, ◌-◌, ◌*◌, ◌/◌, ◌%◌, ◌^◌, ◌≤◌, ◌<◌, ◌≡◌, sym, ap, ◌∙◌, arith, leb,
  if◌then◌else◌, u128_mod,
}
use fusotao.Token.Decimals.{
  multiply_by_ten, divide_by_ten, transform_decimals_to_standard, transform_decimals_to_external,
}

mod-mul-mod : (a b m : ℕ) → a % m * b % m ≡ a * b % m
mod-mul-mod a b m =
    sym (add-mul-mod_self_left (a % m * b) m (a / m * b))
    ∙ ap (λ (x : ℕ). x % m) (omega (arith, ap (λ (x : ℕ). x * b) (div-add-mod a m)))

-- The loop multiplies by the power of ten, modulo 2 ^ 128.
multiply_by_ten-eq : (n a : ℕ) → a < u128_mod → multiply_by_ten n a ≡ a * 10 ^ n % u128_mod
unfolding multiply_by_ten
multiply_by_ten-eq zero a h =
    sym (mod-eq_of_lt (omega arith)) ∙ ap (λ (x : ℕ). x % u128_mod) (omega arith)
multiply_by_ten-eq (suc n) a h =
    multiply_by_ten-eq n (a * 10 % u128_mod) (mod-lt _ (omega arith))
    ∙ mod-mul-mod (a * 10) (10 ^ n) u128_mod
    ∙ ap (λ (x : ℕ). x % u128_mod) (rw pow-suc (omega arith))

divide_by_ten-eq : (n a : ℕ) → divide_by_ten n a ≡ a / 10 ^ n
unfolding divide_by_ten
divide_by_ten-eq zero a = omega arith
divide_by_ten-eq (suc n) a =
    divide_by_ten-eq n (a / 10)
    ∙ div-div-eq-div-mul a 10 (10 ^ n)
    ∙ ap (λ (x : ℕ). a / x) (rw pow-suc (omega arith))

-- Scaling up and back is exact while nothing wraps.
divide-multiply : (n a : ℕ) → a * 10 ^ n < u128_mod → divide_by_ten n (multiply_by_ten n a) ≡ a
divide-multiply n a h =
    let p = one-le-pow n 10 (omega arith) in
    let small : a < u128_mod = grind arith in
    rw (divide_by_ten-eq, multiply_by_ten-eq n a small, mod-eq_of_lt h) (mul-div_cancel a p)

-- Scaling down and back up loses what the division drops.
multiply-divide :
    (n a : ℕ)
    → a < u128_mod
    → (multiply_by_ten n (divide_by_ten n a) ≤ a)
      × (a < multiply_by_ten n (divide_by_ten n a) + 10 ^ n)
multiply-divide n a h =
    let p = one-le-pow n 10 (omega arith) in
    let low = div-mul-le_self a (10 ^ n) in
    let down : a / 10 ^ n ≤ a = omega arith in
    let fits : a / 10 ^ n * 10 ^ n < u128_mod = omega arith in
    rw (divide_by_ten-eq, multiply_by_ten-eq n (a / 10 ^ n) (omega arith), mod-eq_of_lt fits)
      (low, lt-div-mul-add p)

-- Amounts with at most 18 decimals are scaled up, with the product taken modulo 2 ^ 128; those with
-- more decimals are scaled down and rounded towards zero.
pub transform_decimals_to_standard-eq :
    (amount decimals : ℕ)
    → amount < u128_mod
    → transform_decimals_to_standard amount decimals ≡ (
        if leb decimals 18
        then amount * 10 ^ (18 - decimals) % u128_mod
        else amount / 10 ^ (decimals - 18))
unfolding transform_decimals_to_standard
transform_decimals_to_standard-eq amount decimals h =
    ground
      (arith, multiply_by_ten-eq (18 - decimals) amount h, divide_by_ten-eq (decimals - 18) amount)

-- An amount with at most 18 decimals that fits in 128 bits once scaled comes back unchanged.
pub to_external-to_standard :
    (amount decimals : ℕ)
    → decimals ≤ 18
    → amount * 10 ^ (18 - decimals) < u128_mod
    → transform_decimals_to_external (transform_decimals_to_standard amount decimals) decimals
      ≡ amount
unfolding transform_decimals_to_standard transform_decimals_to_external
to_external-to_standard amount decimals low fits =
    ground (arith, divide-multiply (18 - decimals) amount fits)

-- An amount of 18 decimals sent out to a token with fewer and back in never grows, and loses less
-- than one unit of that token.
pub to_standard-to_external :
    (amount decimals : ℕ)
    → decimals ≤ 18
    → amount < u128_mod
    → let back =
        transform_decimals_to_standard (transform_decimals_to_external amount decimals) decimals in
      (back ≤ amount) × (amount < back + 10 ^ (18 - decimals))
unfolding transform_decimals_to_standard transform_decimals_to_external
to_standard-to_external amount decimals low h =
    ground (arith, multiply-divide (18 - decimals) amount h)
