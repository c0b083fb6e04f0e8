-- ===== src/Prelude/Words.antt =====
-- Rust's unsigned integers as numbers: the widths in use, and the checked and saturating operations
-- of `num_traits`. A plain `+` or `*` wraps in the release build, and is written out where it is used.
use Prim.Native.Nat.{ℕ, ◌+◌, ◌-◌, ◌^◌}
use mathlib.Core.Option.{Option, none, some}
use fusotao.Prelude.Tests.{ltb, leb, if◌then◌else◌}

abbrev pub u32_mod : ℕ
u32_mod = 2 ^ 32

abbrev pub u64_mod : ℕ
u64_mod = 2 ^ 64

abbrev pub u128_mod : ℕ
u128_mod = 2 ^ 128

-- `checked_add` on `Balance`, which is `u128`
abbrev pub checked_add : ℕ → ℕ → Option ℕ
checked_add a b = if ltb (a + b) u128_mod then some (a + b) else none

abbrev pub checked_sub : ℕ → ℕ → Option ℕ
checked_sub a b = if leb b a then some (a - b) else none

-- `saturating_add` on `BlockNumber`, which is `u32`
abbrev pub saturating_add32 : ℕ → ℕ → ℕ
saturating_add32 a b = if ltb (a + b) u32_mod then a + b else u32_mod - 1
