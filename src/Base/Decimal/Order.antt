-- ===== src/Base/Decimal/Order.antt =====
-- The order of decimals by value, and how the Boolean tests decide it.
use Prim.Native.Nat.{ℕ, zero, suc, ◌+◌, ◌*◌, ◌^◌, ◌≤◌, ◌<◌}
use mathlib.Core.Path.{◌≡◌}
use mathlib.Core.Bool.{true, false}
use native.Mathlib.Omega.{arith}
use native.Mathlib.Nat.{pow-suc}
use japan_agent.Base.Tests.{lt→ltb}
use japan_agent.Base.Int.{ℤ, pos, negsuc, pos_part, neg_part}
use japan_agent.Base.Results.{ok}
use japan_agent.Base.Decimal.{
  Decimal, dec, lt, le, neg, absolute, fix, quantize, Rounding, precision_limit, magnitude,
}

-- The value of the first is below, or at most, that of the second: coefficients compared over a
-- common denominator, negative parts moved to the other side.
unfoldable pub Lt : Decimal → Decimal → Type 0
Lt a b =
    pos_part a.coefficient * 10 ^ b.places + neg_part b.coefficient * 10 ^ a.places
    < pos_part b.coefficient * 10 ^ a.places + neg_part a.coefficient * 10 ^ b.places

unfoldable pub Le : Decimal → Decimal → Type 0
Le a b =
    pos_part a.coefficient * 10 ^ b.places + neg_part b.coefficient * 10 ^ a.places
    ≤ pos_part b.coefficient * 10 ^ a.places + neg_part a.coefficient * 10 ^ b.places

pub lt→Lt : (a b : Decimal) → lt a b ≡ true → Lt a b
unfolding lt Lt Le
lt→Lt a b h = ground arith

pub lt→Le : (a b : Decimal) → lt a b ≡ false → Le b a
unfolding lt Lt Le
lt→Le a b h = ground arith

pub Lt→lt : (a b : Decimal) → Lt a b → lt a b ≡ true
unfolding lt Lt Le
Lt→lt a b h = ground arith

pub Le→lt : (a b : Decimal) → Le b a → lt a b ≡ false
unfolding lt Lt Le
Le→lt a b h = ground arith

pub le→Le : (a b : Decimal) → le a b ≡ true → Le a b
unfolding le Lt Le
le→Le a b h = ground arith

pub le→Lt : (a b : Decimal) → le a b ≡ false → Lt b a
unfolding le Lt Le
le→Lt a b h = ground arith

pub Lt→le : (a b : Decimal) → Lt b a → le a b ≡ false
unfolding le Lt Le
Lt→le a b h = ground arith

pub Le→le : (a b : Decimal) → Le a b → le a b ≡ true
unfolding le Lt Le
Le→le a b h = ground arith

pub pow_pos : (n : ℕ) → 0 < 10 ^ n
pow_pos zero = omega arith
pow_pos (suc n) = omega (arith, pow-suc 10 n, pow_pos n)

abbrev pub zero_decimal : Decimal
zero_decimal = dec 0 0

-- x > 0
abbrev pub IsPositive : Decimal → Type 0
IsPositive x = Lt zero_decimal x

positive_parts : (x : Decimal) → IsPositive x → 0 < pos_part x.coefficient
unfolding Lt
positive_parts x h = omega arith

pub IsPositive-intro : (n p : ℕ) → 0 < n → IsPositive (dec n p)
unfolding Lt
IsPositive-intro n p h = omega arith

pos_part-IsPositive : (x : Decimal) → 0 < pos_part x.coefficient → IsPositive x
unfolding Lt
pos_part-IsPositive x h = ground arith

product_pos : (a b : ℕ) → 0 < a → 0 < b → 0 < a * b
product_pos a b h k = grind arith

-- What is at least a positive value is positive.
pub Le-IsPositive : (a b : Decimal) → IsPositive a → Le a b → IsPositive b
unfolding Le
Le-IsPositive a b h k = pos_part-IsPositive b (
    ground (
      arith,
      product_pos (pos_part a.coefficient) (10 ^ b.places) (positive_parts a h) (pow_pos b.places),
      positive_parts a h,
      k,
    ))

pub neg-IsPositive :
    (x : Decimal)
    → IsPositive x
    → magnitude x.coefficient < precision_limit
    → Lt (neg x) zero_decimal
unfolding neg Lt
neg-IsPositive x h fits = ground arith

pub fix_of_fits : (x : Decimal) → magnitude x.coefficient < precision_limit → fix x ≡ x
unfolding fix
fix_of_fits x h = rw (lt→ltb _ _ h)

absolute-neg_parts :
    (c : ℤ) (p : ℕ)
    → 0 < pos_part c
    → magnitude c < precision_limit
    → absolute (neg (record { coefficient = c; places = p }))
      ≡ record { coefficient = c; places = p }
unfolding neg absolute
absolute-neg_parts (pos zero) p h fits = absurd (omega arith)
absolute-neg_parts (pos (suc n)) p h fits =
    rw (fix_of_fits (record { coefficient = negsuc n; places = p }) fits)
      (fix_of_fits (record { coefficient = pos (suc n); places = p }) fits)
absolute-neg_parts (negsuc n) p h fits = absurd (omega arith)

-- Within the precision, `abs(-x)` is x for a positive x.
pub absolute-neg :
    (x : Decimal) → IsPositive x → magnitude x.coefficient < precision_limit → absolute (neg x) ≡ x
absolute-neg x h fits = absolute-neg_parts x.coefficient x.places (positive_parts x h) fits

pub quantize_fits :
    (x : Decimal) (p : ℕ) (r : Rounding) {q : Decimal}
    → quantize x p r ≡ ok q
    → magnitude q.coefficient < precision_limit
unfolding quantize
quantize_fits x p r h = ground arith
