-- ===== src/Token/Decimals.antt =====
-- `impl DecimalsTransformer` of pallets/token/src/lib.rs: amounts with another number of decimals to
-- and from the pallet's 18. `amount *= 10` on `u128` wraps in the release build.
use fusotao.Prelude.{ℕ, zero, suc, ◌-◌, ◌*◌, ◌/◌, ◌%◌, ltb, if◌then◌else◌, u128_mod}
use fusotao.Support.XToken.{standard_decimals}

-- `for _i in 0..diff { amount *= 10 }`
unfoldable pub multiply_by_ten : ℕ → ℕ → ℕ
multiply_by_ten zero amount = amount
multiply_by_ten (suc diff) amount = multiply_by_ten diff (amount * 10 % u128_mod)

-- `for _i in 0..diff { amount /= 10 }`
unfoldable pub divide_by_ten : ℕ → ℕ → ℕ
divide_by_ten zero amount = amount
divide_by_ten (suc diff) amount = divide_by_ten diff (amount / 10)

unfoldable pub transform_decimals_to_standard : ℕ → ℕ → ℕ
transform_decimals_to_standard amount external_decimals =
    if ltb standard_decimals external_decimals
    then divide_by_ten (external_decimals - standard_decimals) amount
    else multiply_by_ten (standard_decimals - external_decimals) amount

unfoldable pub transform_decimals_to_external : ℕ → ℕ → ℕ
transform_decimals_to_external amount external_decimals =
    if ltb standard_decimals external_decimals
    then multiply_by_ten (external_decimals - standard_decimals) amount
    else divide_by_ten (standard_decimals - external_decimals) amount
