-- ===== src/Indicator.antt =====
-- pallets/indicator/src/lib.rs: the last price of each token on the chain.
mod Tests
use fusotao.Prelude.{
  ℕ, ◌+◌, ◌*◌, ◌/◌, ◌%◌, ◌^◌, ◌≤◌, ◌<◌, ◌≡◌, true, false, ◌&&◌, not, Option, none, some, arith,
  ◌==◌, if◌then◌else◌, nat_eq, pair_eq, bytes_eq, u128_mod,
}
use native.Mathlib.Nat.{div-add-mod', div-eq_of_lt-le, div-le_self, mod-lt}
use fusotao.Support.Storage.{StorageMap, get, insert, get-insert_self}
use fusotao.Support.Asset.{Asset}

abbrev pub quintill : ℕ
quintill = 10 ^ 18

pub record Price : Type 0 where
  pub price : ℕ
  pub recent_matched_amount : ℕ
  pub recent_matched_vol : ℕ
  pub updated_at : ℕ

-- A `ValueQuery` map reads `Price::default()` where it has no entry.
abbrev pub or_no_price : Option Price → Price
or_no_price none = record {
  price = 0;
  recent_matched_amount = 0;
  recent_matched_vol = 0;
  updated_at = 0;
}
or_no_price (some p) = p

-- The storage item, and the assets that the pallet reads.
pub record State (Store : Type 0) : Type 0 where
  pub prices : StorageMap ℕ Price
  pub assets : Store

-- What the runtime supplies, and the parts of a `Perquintill` of sp_arithmetic made of a fraction.
pub record Config : Type 1 where
  pub asset : Asset
  pub from_rational : ℕ → ℕ → ℕ

-- `Perquintill::from_rational` rounds down a fraction below one.
abbrev pub RoundsDown : Config → Type 0
RoundsDown c =
    (p q : ℕ)
    → p < q
    → (c.from_rational p q * q ≤ p * quintill) × (p * quintill < c.from_rational p q * q + q)

-- The closure of `set_price` where both numbers are above zero. The plain `*` and `+` wrap.
unfoldable pub matched_price : Config → ℕ → ℕ → ℕ → Price
matched_price c amount volume at = record {
  price =
      (volume / amount * quintill % u128_mod + c.from_rational (volume % amount) amount) % u128_mod;
  recent_matched_amount = amount;
  recent_matched_vol = volume;
  updated_at = at;
}

-- The whole part and the fraction, scaled, are the scaled quotient.
scaled_quotient :
    (v a f : ℕ)
    → 0 < a
    → f * a ≤ v % a * quintill
    → v % a * quintill < f * a + a
    → v * quintill / a ≡ v / a * quintill + f
scaled_quotient v a f pos low high =
    div-eq_of_lt-le a (omega (arith, div-add-mod' v a)) (omega (arith, div-add-mod' v a))

module _ (c : Config) where
  open c use {asset}

  unfoldable pub get_price : ℕ → State asset.Store → ℕ
  get_price token_id s =
      if asset.is_stable token_id s.assets
      then quintill
      else (or_no_price (get token_id s.prices)).price

  unfoldable pub set_price : ℕ → ℕ → ℕ → ℕ → State asset.Store → State asset.Store
  unfolding matched_price
  set_price token_id amount volume at s = record s {
    prices =
        insert token_id
          (if not (volume == 0) && not (amount == 0)
            then matched_price c amount volume at
            else or_no_price (get token_id s.prices))
          s.prices;
  }

  get-set_price :
      (token_id amount volume at : ℕ) (s : State asset.Store)
      → 0 < amount
      → 0 < volume
      → get token_id (set_price token_id amount volume at s).prices
        ≡ some (matched_price c amount volume at)
  unfolding set_price
  get-set_price token_id amount volume at s pos pos' =
      let e : (not (volume == 0) && not (amount == 0)) ≡ true = ground arith in
      rw e (get-insert_self token_id (matched_price c amount volume at) s.prices)

  -- The price of a token that is not stable, after a match of `amount` for `volume`, is the volume in
  -- units of 10^-18 divided by the amount and rounded down, when it fits `u128` and both are above
  -- zero, with `Perquintill::from_rational` rounding down.
  pub get_price-set_price :
      (token_id amount volume at : ℕ) (s : State asset.Store)
      → RoundsDown c
      → asset.is_stable token_id s.assets ≡ false
      → 0 < amount
      → 0 < volume
      → volume * quintill < u128_mod
      → get_price token_id (set_price token_id amount volume at s) ≡ volume * quintill / amount
  unfolding get_price matched_price
  get_price-set_price token_id amount volume at s rounds unstable pos pos' fits =
      let f = c.from_rational (volume % amount) amount in
      let (low, high) = rounds (volume % amount) amount (mod-lt volume pos) in
      let exact = scaled_quotient volume amount f pos low high in
      let small = div-le_self (volume * quintill) amount in
      let unstable' : asset.is_stable token_id (set_price token_id amount volume at s).assets
          ≡ false =
        unfold set_price in unstable in
      rw (unstable', get-set_price token_id amount volume at s pos pos')
        (omega (arith, exact, small, fits))
