-- ===== src/Support/Bytes.antt =====
-- Fixed arrays of bytes as lists: little-endian numbers, slices, and `copy_from_slice`.
use fusotao.Prelude.{ℕ, ◌+◌, ◌-◌, ◌*◌, ◌/◌, ◌%◌, [], ◌∷◌, ◌++◌, take, drop, length}
use fusotao.Support.XToken.{Bytes}

-- `from_le_bytes`
unfoldable pub from_le_bytes : Bytes → ℕ
from_le_bytes [] = 0
from_le_bytes (b ∷ bs) = b + 256 * from_le_bytes bs

-- `u16::to_le_bytes`
abbrev pub u16_to_le_bytes : ℕ → Bytes
u16_to_le_bytes n = n % 256 ∷ n / 256 % 256 ∷ []

-- `key[from..to]`
abbrev pub slice : Bytes → ℕ → ℕ → Bytes
slice bytes from to = take (to - from) (drop from bytes)

-- `bytes[at..at + len].copy_from_slice(part)`
abbrev pub copy_at : ℕ → Bytes → Bytes → Bytes
copy_at at part bytes = take at bytes ++ (part ++ drop (at + length part) bytes)
