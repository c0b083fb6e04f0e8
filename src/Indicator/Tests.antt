-- ===== src/Indicator/Tests.antt =====
-- The theorem on prices at a concrete match: 10 tokens for 25 units.
use fusotao.Prelude.{◌*◌, ◌/◌, ◌≡◌, refl, [], arith}
use native.Mathlib.Nat.{div-add-mod', mod-lt}
use fusotao.Support.Purse.{Purse, purse}
use fusotao.Indicator.{
  quintill, State, Config, RoundsDown, get_price, set_price, get_price-set_price,
}

abbrev oracle : Config
oracle = record { asset = purse; from_rational = λ p q. p * quintill / q }

oracle-RoundsDown : RoundsDown oracle
oracle-RoundsDown p q h =
    let m = mod-lt (p * quintill) {m = q} (omega (arith, h)) in
    (omega (arith, div-add-mod' (p * quintill) q), omega (arith, div-add-mod' (p * quintill) q, m))

abbrev start : State Purse
start = record { prices = []; assets = (0, []) }

get_price-set_price_example :
    get_price oracle 2 (set_price oracle 2 10 25 7 start) ≡ 25 * quintill / 10
get_price-set_price_example =
    get_price-set_price oracle 2 10 25 7 start oracle-RoundsDown refl (ground arith) (ground arith)
      (ground arith)
