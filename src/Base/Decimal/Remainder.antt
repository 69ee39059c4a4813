-- ===== src/Base/Decimal/Remainder.antt =====
-- `a % b` on decimals, and the integer below a decimal, in the default context.
use japan_agent.Base.Tests.{ltb, ◌==◌, if◌then◌else◌}
use Prim.Native.Nat.{ℕ, ◌-◌, ◌*◌, ◌/◌, ◌%◌, ◌^◌, max}
use mathlib.Core.Path.{◌≡◌, refl}
use japan_agent.Base.Int.{ℤ, pos, negsuc}
use japan_agent.Base.Results.{Result, ok, err}
use japan_agent.Base.Decimal.{
  Decimal, dec, neg, magnitude, with_sign, fix, precision_limit, DecimalError, invalid_operation,
}

-- The magnitude of a coefficient at a greater number of places.
abbrev at_common : Decimal → ℕ → ℕ
at_common x p = magnitude x.coefficient * 10 ^ (p - x.places)

-- `a % b`, with the sign of a: InvalidOperation at b = 0 or if the whole quotient has more than 28
-- digits.
unfoldable pub remainder : Decimal → Decimal → Result DecimalError Decimal
unfolding fix
remainder a b =
    let p = max a.places b.places in
    let n = at_common a p in
    let d = at_common b p in
    let r = fix (record { coefficient = with_sign a.coefficient (n % d); places = p }) in
    if magnitude b.coefficient == 0
    then err invalid_operation
    else if ltb (n / d) precision_limit
    then ok r
    else err invalid_operation

abbrev floor_parts : ℤ → ℕ → ℤ
floor_parts (pos n) unit = pos (n / unit)
floor_parts (negsuc n) unit = negsuc (n / unit)

-- `x.to_integral_value(rounding=ROUND_FLOOR)`
unfoldable pub floor_of : Decimal → ℤ
floor_of x = floor_parts x.coefficient (10 ^ x.places)

remainders :
    (remainder (dec 47 2) (dec 1 2) ≡ ok (dec 0 2))
    × (remainder (dec 475 3) (dec 1 2) ≡ ok (dec 5 3))
    × (remainder (neg (dec 7 0)) (dec 2 0) ≡ ok (neg (dec 1 0)))
unfolding remainder neg
remainders = (refl, refl, refl)

floors : (floor_of (dec 95 1) ≡ pos 9) × (floor_of (neg (dec 5 1)) ≡ negsuc 0)
unfolding floor_of neg
floors = (refl, refl)
