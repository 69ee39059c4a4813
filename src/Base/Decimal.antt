-- ===== src/Base/Decimal.antt =====
-- Python's `decimal.Decimal` in the default context: finite values, 28 significant digits, and
-- rounding to the nearest with ties to even. A value is `coefficient` / 10 ^ `places`; the
-- exponents that Python stores as positive numbers are written out in the coefficient.
pub mod Order
pub mod Linear
pub mod Sign
pub mod Remainder
pub mod Format
pub mod Digits
pub mod Roundtrip
use Prim.Native.Nat.{ℕ, zero, suc, ◌+◌, ◌-◌, ◌*◌, ◌/◌, ◌%◌, ◌^◌, ◌≤◌, ◌<◌, max}
use mathlib.Core.Path.{◌≡◌, refl}
use mathlib.Core.Bool.{Bool, true, false, not, ◌&&◌}
use mathlib.Core.List.{List, [], ◌∷◌}
use native.Mathlib.Omega.{arith}
use japan_agent.Base.Tests.{ltb, leb, ◌==◌, if◌then◌else◌}
use japan_agent.Base.Int.{ℤ, pos, negsuc, pos_part, neg_part, neg_ℕ, sub_ℕ, negate}
use japan_agent.Base.Results.{Result, ok, err}

pub record Decimal : Type 0 where
  pub coefficient : ℤ
  pub places : ℕ

-- Decimal("n") / 10 ^ p, such as `dec 40 2` for Decimal("0.40").
abbrev pub dec : ℕ → ℕ → Decimal
dec n p = record { coefficient = pos n; places = p }

abbrev pub magnitude : ℤ → ℕ
magnitude (pos n) = n
magnitude (negsuc n) = suc n

-- An integer with the sign of the first and the magnitude given.
abbrev pub with_sign : ℤ → ℕ → ℤ
with_sign (pos _) m = pos m
with_sign (negsuc _) m = neg_ℕ m

-- How many decimal digits a number has; the number itself is fuel enough.
digit_count_fuel : ℕ → ℕ → ℕ
digit_count_fuel zero n = 1
digit_count_fuel (suc f) n =
    let rest = suc (digit_count_fuel f (n / 10)) in if ltb n 10 then 1 else rest

unfoldable pub digit_count : ℕ → ℕ
unfolding digit_count_fuel
digit_count n = digit_count_fuel n n

-- n / 10 ^ d, to the nearest, a tie to the even neighbour (ROUND_HALF_EVEN).
unfoldable pub half_even : ℕ → ℕ → ℕ
half_even n d =
    let unit = 10 ^ d in
    let q = n / unit in
    let r = n % unit in
    if ltb unit (2 * r) then q + 1 else if ltb (2 * r) unit then q else q + q % 2

abbrev pub precision_limit : ℕ
precision_limit = 10 ^ 28

-- c / 10 ^ (p - e), where the exponent e may exceed p.
abbrev pub shift_places : ℤ → ℕ → ℕ → Decimal
shift_places c p e =
    if leb e p
    then record { coefficient = c; places = p - e }
    else record { coefficient = with_sign c (magnitude c * 10 ^ (e - p)); places = 0 }

-- A coefficient of more than 28 digits loses the digits past the 28th.
unfoldable pub round_to_precision : Decimal → Decimal
unfolding digit_count half_even
round_to_precision x =
    let m = magnitude x.coefficient in
    let drop = digit_count m - 28 in
    let r = half_even m drop in
    if r == precision_limit
    then shift_places (with_sign x.coefficient (10 ^ 27)) x.places (drop + 1)
    else shift_places (with_sign x.coefficient r) x.places drop

-- `_fix(context)`, which ends every arithmetic operation.
unfoldable pub fix : Decimal → Decimal
unfolding round_to_precision
fix x =
    let rounded = round_to_precision x in
    if ltb (magnitude x.coefficient) precision_limit then x else rounded

-- The coefficient of a value at a greater number of places.
abbrev pub scaled_pos : Decimal → ℕ → ℕ
scaled_pos x p = pos_part x.coefficient * 10 ^ (p - x.places)

abbrev pub scaled_neg : Decimal → ℕ → ℕ
scaled_neg x p = neg_part x.coefficient * 10 ^ (p - x.places)

-- The exact sum, difference and product, before the context rounds them.
unfoldable pub exact_add : Decimal → Decimal → Decimal
exact_add a b =
    let p = max a.places b.places in
    record {
      coefficient = sub_ℕ (scaled_pos a p + scaled_pos b p) (scaled_neg a p + scaled_neg b p);
      places = p;
    }

abbrev pub opposite : Decimal → Decimal
opposite x = record { coefficient = negate x.coefficient; places = x.places }

unfoldable pub exact_mul : Decimal → Decimal → Decimal
exact_mul a b = record {
  coefficient =
      sub_ℕ
        (pos_part a.coefficient * pos_part b.coefficient
          + neg_part a.coefficient * neg_part b.coefficient)
        (pos_part a.coefficient * neg_part b.coefficient
          + neg_part a.coefficient * pos_part b.coefficient);
  places = a.places + b.places;
}

-- `a + b`, `a - b`, `a * b`, `-a`, `abs(a)`
unfoldable pub add : Decimal → Decimal → Decimal
unfolding fix exact_add
add a b = fix (exact_add a b)

unfoldable pub sub : Decimal → Decimal → Decimal
unfolding fix exact_add
sub a b = fix (exact_add a (opposite b))

unfoldable pub mul : Decimal → Decimal → Decimal
unfolding fix exact_mul
mul a b = fix (exact_mul a b)

unfoldable pub neg : Decimal → Decimal
unfolding fix
neg a = fix (opposite a)

unfoldable pub absolute : Decimal → Decimal
unfolding fix
absolute a = fix (record { coefficient = pos (magnitude a.coefficient); places = a.places })

-- `a < b` and `a <= b` are exact.
unfoldable pub lt : Decimal → Decimal → Bool
lt a b =
    ltb (pos_part a.coefficient * 10 ^ b.places + neg_part b.coefficient * 10 ^ a.places)
      (pos_part b.coefficient * 10 ^ a.places + neg_part a.coefficient * 10 ^ b.places)

unfoldable pub le : Decimal → Decimal → Bool
unfolding lt
le a b = not (lt b a)

-- `a == b`
unfoldable pub eq : Decimal → Decimal → Bool
unfolding le
eq a b = le a b && le b a

-- `min(a, b)` and `max(a, b)` keep the first of two equal values.
unfoldable pub min_of : Decimal → Decimal → Decimal
unfolding lt
min_of a b = if lt b a then b else a

unfoldable pub max_of : Decimal → Decimal → Decimal
unfolding lt
max_of a b = if lt a b then b else a

-- `sum(values, Decimal("0"))`
unfoldable pub sum_from : Decimal → List Decimal → Decimal
unfolding add
sum_from acc [] = acc
sum_from acc (x ∷ xs) = sum_from (add acc x) xs

pub data DecimalError : Type 0 where
  invalid_operation division_by_zero : DecimalError

pub data Rounding : Type 0 where
  round_half_even round_down : Rounding

abbrev pub round_magnitude : Rounding → ℕ → ℕ → ℕ
round_magnitude round_half_even n d = half_even n d
round_magnitude round_down n d = n / 10 ^ d

-- `x.quantize(Decimal(1) / 10 ** p, rounding=…)`: InvalidOperation past 28 digits.
unfoldable pub quantize : Decimal → ℕ → Rounding → Result DecimalError Decimal
unfolding half_even
quantize x p rounding =
    let m = magnitude x.coefficient in
    let n =
      if leb x.places p
      then m * 10 ^ (p - x.places)
      else round_magnitude rounding m (x.places - p) in
    if ltb n precision_limit
    then ok (record { coefficient = with_sign x.coefficient n; places = p })
    else err invalid_operation

-- The digits of a quotient, with one more than the precision so that rounding is correct: an
-- inexact quotient that ends in 0 or 5 is moved off the tie.
abbrev pub sticky : ℕ → ℕ → ℕ
sticky n d = let q = n / d in if n % d == 0 then q else if q % 5 == 0 then q + 1 else q

-- The second with its sign changed if the first is negative.
abbrev pub sign_product : ℤ → ℤ → ℤ
sign_product (pos _) c = c
sign_product (negsuc _) c = negate c

-- a / b before it is rounded, where `up` digits are added to a, or `down` to b.
unfoldable pub quotient : ℤ → ℤ → ℕ → ℕ → ℕ → ℕ → Decimal
quotient a b pa pb up down =
    let n = sticky (magnitude a * 10 ^ up) (magnitude b * 10 ^ down) in
    shift_places (sign_product a (with_sign b n)) (pa + up) (pb + down)

-- `a / b`. Python also takes the zeros off the end of an exact quotient, down to the difference of the
-- exponents; the value is the same.
unfoldable pub div : Decimal → Decimal → Result DecimalError Decimal
unfolding fix digit_count quotient
div a b =
    let la = digit_count (magnitude a.coefficient) in
    let lb = digit_count (magnitude b.coefficient) in
    let q =
      quotient a.coefficient b.coefficient a.places b.places (lb + 29 - la) (la - (lb + 29)) in
    if magnitude b.coefficient == 0 then err division_by_zero else ok (fix q)

third : div (dec 1 0) (dec 3 0) ≡ ok (dec 3333333333333333333333333333 28)
unfolding div
third = refl

two_thirds : div (neg (dec 2 0)) (dec 3 0) ≡ ok (neg (dec 6666666666666666666666666667 28))
unfolding div neg
two_thirds = refl

ties_to_even :
    (quantize (dec 125 3) 2 round_half_even ≡ ok (dec 12 2))
    × (quantize (dec 135 3) 2 round_half_even ≡ ok (dec 14 2))
    × (quantize (dec 139 3) 2 round_down ≡ ok (dec 13 2))
unfolding quantize
ties_to_even = (refl, refl, refl)
