-- ===== src/Risk/Build/Sized.antt =====
-- How the sizing of an order can fail: past the precision of decimals, but never by a division.
use japan_agent.Base.{ℕ, ◌≡◌, Bool, true, false, ◌==◌, Result, ok, err, ◌>>=◌, if◌then◌else◌, arith}
use japan_agent.Base.Decimal.{
  Decimal, DecimalError, invalid_operation, division_by_zero, Rounding, round_half_even, round_down,
  quantize, div, mul, sub, absolute, magnitude,
}
use japan_agent.Base.Decimal.Order.{IsPositive, Lt}
use japan_agent.Models.Portfolio.{Position, ResearchDecision}
use japan_agent.Risk.Policy.{RiskPolicy}
use japan_agent.Risk.Build.{size_order}

-- `decimal.InvalidOperation` is the only exception.
abbrev pub IsOverflow : DecimalError → Type 0
IsOverflow invalid_operation = Unit
IsOverflow division_by_zero = ⊥

abbrev pub Sized : {A : Type 0} → Result DecimalError A → Type 0
Sized (ok _) = Unit
Sized (err e) = IsOverflow e

Sized-bind :
    {A B : Type 0} (m : Result DecimalError A) (f : A → Result DecimalError B)
    → Sized m
    → ((a : A) → Sized (f a))
    → Sized (m >>= f)
Sized-bind (ok a) f h k = k a
Sized-bind (err e) f h k = h

Sized-fitting : (b : Bool) (x : Decimal) → Sized (if b then ok x else err invalid_operation)
Sized-fitting true x = tt
Sized-fitting false x = tt

Sized-divided :
    (b : Bool) (x : Decimal) → b ≡ false → Sized (if b then err division_by_zero else ok x)
Sized-divided b x h = rw h tt

quantize-Sized : (x : Decimal) (p : ℕ) (rounding : Rounding) → Sized (quantize x p rounding)
unfolding quantize
quantize-Sized x p rounding = Sized-fitting _ _

positive_divisor : (x : Decimal) → IsPositive x → (magnitude x.coefficient == 0) ≡ false
unfolding Lt
positive_divisor x h = ground arith

div-Sized : (a b : Decimal) → IsPositive b → Sized (div a b)
unfolding div
div-Sized a b h = Sized-divided _ _ (positive_divisor b h)

pub size_order-Sized :
    (policy : RiskPolicy) (d : ResearchDecision) (current : Position) (nav price : Decimal)
    → IsPositive price
    → Sized (size_order policy d current nav price)
unfolding size_order
size_order-Sized policy d current nav price h =
    Sized-bind (quantize (mul d.target_weight nav) 2 round_half_even) _ (quantize-Sized _ _ _)
      λ desired.
        Sized-bind (div (absolute (sub desired current.market_value_gbp)) price) _
          (div-Sized _ price h)
          λ shares.
            Sized-bind (quantize shares policy.quantity_places.places round_down) _
              (quantize-Sized _ _ _)
              λ quantity.
                Sized-bind (quantize (mul quantity price) 2 round_half_even) _
                  (quantize-Sized _ _ _) λ value. tt
