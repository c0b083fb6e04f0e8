-- ===== src/Support/Resource.antt =====
-- The resource ids of the bridge: `chainbridge` of pallets/fuso-support/src/external_chain.rs.
use fusotao.Prelude.{
  ℕ, zero, suc, ◌+◌, ◌-◌, ◌*◌, ◌/◌, ◌%◌, ◌<◌, ◌≤◌, ◌≡◌, refl, ap, ◌∙◌, Bool-cases, inl, inr,
  length-replicate, false, [], ◌∷◌, ◌++◌, Option, none, some, ltb, ◌||◌, if◌then◌else◌, length,
  take, drop, replicate, get_or, arith,
}
use fusotao.Support.XToken.{Bytes}
use fusotao.Support.Bytes.{from_le_bytes, u16_to_le_bytes, slice, copy_at}

-- An error is `none`.
unfoldable pub derive_resource_id : ℕ → ℕ → Bytes → Option Bytes
derive_resource_id chain dex id =
    let id_len = length id in
    if ltb 28 id_len || ltb id_len 1
    then none
    else (let r₁ = copy_at 30 (u16_to_le_bytes chain) (replicate 32 0) in
        let r₂ = copy_at 29 (dex ∷ []) r₁ in
        let r₃ = copy_at (29 - id_len) id r₂ in some (copy_at 0 (id_len % 256 ∷ []) r₃))

unfoldable pub decode_resource_id : Bytes → Option (ℕ × (ℕ × Bytes))
unfolding from_le_bytes
decode_resource_id r_id =
    let chain = from_le_bytes (drop 30 r_id) in
    let dex = get_or r_id 29 0 in
    let id_len = get_or r_id 0 0 in
    if ltb 28 id_len || ltb id_len 1 then none else some (chain, (dex, slice r_id (29 - id_len) 29))

-- Reading a list past its first part.
drop-past : (xs ys : Bytes) (n k : ℕ) → n ≡ length xs + k → drop n (xs ++ ys) ≡ drop k ys
drop-past [] ys n k e = let e' : n ≡ k = omega (arith, e) in rw e' refl
drop-past (x ∷ xs) ys zero k e = absurd (omega (arith, e))
drop-past (x ∷ xs) ys (suc n) k e = drop-past xs ys n k (omega (arith, e))

get_or-past :
    (xs ys : Bytes) (n k d : ℕ) → n ≡ length xs + k → get_or (xs ++ ys) n d ≡ get_or ys k d
get_or-past [] ys n k d e = let e' : n ≡ k = omega (arith, e) in rw e' refl
get_or-past (x ∷ xs) ys zero k d e = absurd (omega (arith, e))
get_or-past (x ∷ xs) ys (suc n) k d e = get_or-past xs ys n k d (omega (arith, e))

take-first : (xs ys : Bytes) (n : ℕ) → n ≡ length xs → take n (xs ++ ys) ≡ xs
take-first [] ys n e = let e' : n ≡ 0 = omega (arith, e) in rw e' refl
take-first (x ∷ xs) ys zero e = absurd (omega (arith, e))
take-first (x ∷ xs) ys (suc n) e = ap (λ zs. x ∷ zs) (take-first xs ys n (omega (arith, e)))

take-replicate : (n m : ℕ) (ys : Bytes) → n ≤ m → take n (replicate m 0 ++ ys) ≡ replicate n 0
take-replicate zero m ys h = refl
take-replicate (suc n) zero ys h = absurd (omega (arith, h))
take-replicate (suc n) (suc m) ys h = ap (λ zs. 0 ∷ zs) (take-replicate n m ys (omega (arith, h)))

-- What the four copies put together: the length, zeros, the id, and the last three bytes.
abbrev layout : ℕ → Bytes → Bytes → Bytes
layout n id tail = (n ∷ replicate (28 - n) 0) ++ (id ++ tail)

derive_resource_id-layout :
    (chain dex : ℕ) (id : Bytes)
    → length id ≤ 28
    → 1 ≤ length id
    → derive_resource_id chain dex id ≡ some (layout (length id) id (dex ∷ u16_to_le_bytes chain))
unfolding derive_resource_id
derive_resource_id-layout chain dex id short long =
    let n = length id in
    let tail = dex ∷ u16_to_le_bytes chain in
    let small : n % 256 ≡ n = omega (arith, short) in
    let zeros : take (29 - n) (replicate 29 0 ++ tail) ≡ replicate (29 - n) 0 =
      take-replicate (29 - n) 29 tail (omega arith) in
    let rest : drop (29 - n + n) (replicate 29 0 ++ tail) ≡ tail =
      drop-past (replicate 29 0) tail (29 - n + n) 0 (omega (arith, short)) in
    let more : 29 - n ≡ suc (28 - n) = omega (arith, short) in
    let above : ltb 28 n ≡ false = ground arith in
    let below : ltb n 1 ≡ false = ground arith in rw (above, below, zeros, rest, small, more) refl

decode_resource_id-layout :
    (chain dex : ℕ) (id : Bytes)
    → chain < 65536
    → length id ≤ 28
    → 1 ≤ length id
    → decode_resource_id (layout (length id) id (dex ∷ u16_to_le_bytes chain))
      ≡ some (chain, (dex, id))
unfolding decode_resource_id from_le_bytes
decode_resource_id-layout chain dex id fits short long =
    let n = length id in
    let tail = dex ∷ u16_to_le_bytes chain in
    let pre = n ∷ replicate (28 - n) 0 in
    let size : length pre ≡ 29 - n = omega (arith, short, length-replicate {A = ℕ} (28 - n) 0) in
    let last : drop 30 (pre ++ (id ++ tail)) ≡ u16_to_le_bytes chain =
      drop-past pre (id ++ tail) 30 (n + 1) (omega (arith, size, short))
      ∙ drop-past id tail (n + 1) 1 refl in
    let key : get_or (pre ++ (id ++ tail)) 29 0 ≡ dex =
      get_or-past pre (id ++ tail) 29 n 0 (omega (arith, size, short))
      ∙ get_or-past id tail n 0 0 (omega arith) in
    let back : 29 - (29 - n) ≡ n = omega (arith, short) in
    let body : take (29 - (29 - n)) (drop (29 - n) (pre ++ (id ++ tail))) ≡ id =
      rw (back, drop-past pre (id ++ tail) (29 - n) 0 (omega (arith, size)))
        (take-first id tail n refl) in
    let above : ltb 28 n ≡ false = ground arith in
    let below : ltb n 1 ≡ false = ground arith in
    let number : chain % 256 + 256 * (chain / 256 % 256 + 256 * 0) ≡ chain = omega (arith, fits) in
    rw (above, below, last, key, body, number) refl

-- `decode_resource_id` of what may be an error.
abbrev pub decode_derived : Option Bytes → Option (ℕ × (ℕ × Bytes))
decode_derived none = none
decode_derived (some r_id) = decode_resource_id r_id

-- On a chain whose number is below 65536, an id of 1 to 28 bytes comes back from its resource id, with
-- the chain and the dex; an id of another length has no resource id.
pub decode_resource_id-derive_resource_id :
    (chain dex : ℕ) (id : Bytes)
    → chain < 65536
    → decode_derived (derive_resource_id chain dex id)
      ≡ (if ltb 28 (length id) || ltb (length id) 1 then none else some (chain, (dex, id)))
unfolding derive_resource_id
decode_resource_id-derive_resource_id chain dex id fits =
    elim (Bool-cases (ltb 28 (length id) || ltb (length id) 1)) [
      | inl off ↦ rw off refl
      | inr fine ↦
          let short : length id ≤ 28 = ground arith in
          let long : 1 ≤ length id = ground arith in
          rw (derive_resource_id-layout chain dex id short long, fine)
            (decode_resource_id-layout chain dex id fits short long)
    ]
