-- ===== src/Base/Decimal/Digits.antt =====
-- The digits of a number, as text: their value and their length.
use Prim.Native.Nat.{ℕ, zero, suc, ◌+◌, ◌-◌, ◌*◌, ◌/◌, ◌%◌, ◌^◌, ◌≤◌, ◌<◌}
use mathlib.Core.Path.{◌≡◌, refl, ap, ◌∙◌}
use mathlib.Core.Logic.{inl, inr}
use mathlib.Core.List.{[], ◌∷◌, ◌++◌}
use native.Mathlib.Omega.{arith}
use native.Mathlib.Nat.{pow-suc}
use japan_agent.Base.Tests.{ltb, Bool-cases}
use japan_agent.Base.Lists.{length, All}
use japan_agent.Base.Decimal.Format.{Text, digits_fuel, last_digits, value_from}

-- One of the ten digits.
abbrev pub IsDigit : ℕ → Type 0
IsDigit c = (48 ≤ c) × (c ≤ 57)

All-append : (xs ys : Text) → All IsDigit xs → All IsDigit ys → All IsDigit (xs ++ ys)
All-append [] ys h k = k
All-append (x ∷ xs) ys (h, hs) k = (h, All-append xs ys hs k)

remainder_of_ten-IsDigit : (n : ℕ) → IsDigit (48 + n % 10)
remainder_of_ten-IsDigit n = (omega arith, omega arith)

pub digits_fuel-IsDigit : (f n : ℕ) → All IsDigit (digits_fuel f n)
unfolding digits_fuel
digits_fuel-IsDigit zero n = (remainder_of_ten-IsDigit n, tt)
digits_fuel-IsDigit (suc f) n = elim (Bool-cases (ltb n 10)) [
  | inl small ↦ rw small ((omega arith, ground arith), tt)
  | inr large ↦ rw large (
      All-append (digits_fuel f (n / 10)) _ (digits_fuel-IsDigit f (n / 10))
        (remainder_of_ten-IsDigit n, tt))
]

pub last_digits-IsDigit : (p n : ℕ) → All IsDigit (last_digits p n)
unfolding last_digits
last_digits-IsDigit zero n = tt
last_digits-IsDigit (suc p) n =
    All-append (last_digits p (n / 10)) _ (last_digits-IsDigit p (n / 10))
      (remainder_of_ten-IsDigit n, tt)

value_from-append :
    (a : ℕ) (cs : Text) (c : ℕ) → value_from a (cs ++ c ∷ []) ≡ value_from a cs * 10 + (c - 48)
unfolding value_from
value_from-append a [] c = refl
value_from-append a (d ∷ ds) c = value_from-append (a * 10 + (d - 48)) ds c

-- The digits of a number have its value.
pub value_from-digits : (f n : ℕ) → n ≤ f → value_from 0 (digits_fuel f n) ≡ n
unfolding digits_fuel value_from
value_from-digits zero n h = omega arith
value_from-digits (suc f) n h = elim (Bool-cases (ltb n 10)) [
  | inl small ↦ rw small (omega arith)
  | inr large ↦
      rw
        (
          large,
          value_from-append 0 (digits_fuel f (n / 10)) (48 + n % 10),
          value_from-digits f (n / 10) (ground arith),
        )
        (omega arith)
]

pub value_from-last : (a p n : ℕ) → n < 10 ^ p → value_from a (last_digits p n) ≡ a * 10 ^ p + n
unfolding last_digits value_from
value_from-last a zero n h = omega arith
value_from-last a (suc p) n h =
    rw
      (
        value_from-append a (last_digits p (n / 10)) (48 + n % 10),
        value_from-last a p (n / 10) (omega (arith, h, pow-suc 10 p)),
        pow-suc 10 p,
      )
      (grind arith)

length-append-one : (cs : Text) (c : ℕ) → length (cs ++ c ∷ []) ≡ suc (length cs)
length-append-one [] c = refl
length-append-one (d ∷ ds) c = ap suc (length-append-one ds c)

pub length-last_digits : (p n : ℕ) → length (last_digits p n) ≡ p
unfolding last_digits
length-last_digits zero n = refl
length-last_digits (suc p) n =
    length-append-one (last_digits p (n / 10)) (48 + n % 10)
    ∙ ap suc (length-last_digits p (n / 10))
