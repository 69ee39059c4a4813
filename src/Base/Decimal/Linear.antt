-- ===== src/Base/Decimal/Linear.antt =====
-- Decimals by value are linearly ordered; minimum, maximum and rounding down in that order.
use native.Mathlib.Nat.{pow-succ', mul_assoc}
use Prim.Native.Nat.{ℕ, zero, suc, ◌+◌, ◌-◌, ◌*◌, ◌/◌, ◌^◌, ◌≤◌, ◌<◌, max}
use mathlib.Core.Path.{◌≡◌, sym, ◌∙◌, ap}
use mathlib.Core.Bool.{true, false}
use mathlib.Core.Logic.{inl, inr}
use native.Mathlib.Omega.{arith}
use japan_agent.Base.Tests.{Bool-cases, leb, if◌then◌else◌}
use japan_agent.Base.Int.{ℤ, pos, negsuc, pos_part, neg_part}
use japan_agent.Base.Results.{ok}
use japan_agent.Base.Decimal.{Decimal, lt, min_of, max_of, quantize, round_down}
use japan_agent.Base.Decimal.Order.{Lt, Le, lt→Lt, lt→Le, pow_pos}

pub Le-refl : (a : Decimal) → Le a a
unfolding Le
Le-refl a = omega arith

pub Le_of_Lt : (a b : Decimal) → Lt a b → Le a b
unfolding Lt Le
Le_of_Lt a b h = omega arith

times : (x y m : ℕ) → x ≤ y → x * m ≤ y * m
times x y m h = grind arith

pub cancel : (x y m : ℕ) → 0 < m → x * m ≤ y * m → x ≤ y
cancel x y m h k = grind arith

pub pow-add : (d q : ℕ) → 10 ^ (d + q) ≡ 10 ^ d * 10 ^ q
pow-add zero q = grind arith
pow-add (suc d) q =
    ap (λ (k : ℕ). 10 ^ k) (omega arith)
    ∙ pow-succ' 10 (d + q)
    ∙ ap (λ (k : ℕ). 10 * k) (pow-add d q)
    ∙ sym (mul_assoc 10 (10 ^ d) (10 ^ q))
    ∙ ap (λ (k : ℕ). k * 10 ^ q) (sym (pow-succ' 10 d))

-- An order over a common denominator is one at the greater number of places.
pub common : (n m p d : ℕ) → n * 10 ^ p ≤ m * 10 ^ (d + p) → n ≤ m * 10 ^ d
common n m p d h =
    cancel n (m * 10 ^ d) (10 ^ p) (pow_pos p) (rw (mul_assoc m (10 ^ d) (10 ^ p), ← pow-add d p) h)

common' : (n m p d : ℕ) → n * 10 ^ (d + p) ≤ m * 10 ^ p → n * 10 ^ d ≤ m
common' n m p d h =
    cancel (n * 10 ^ d) m (10 ^ p) (pow_pos p) (rw (mul_assoc n (10 ^ d) (10 ^ p), ← pow-add d p) h)

-- The greater number of places, on either side.
pub at_places :
    (n m q p : ℕ) → n * 10 ^ q ≤ m * 10 ^ p → n * 10 ^ (max q p - p) ≤ m * 10 ^ (max q p - q)
at_places n m q p h = elim (Bool-cases (leb q p)) [
  | inl less ↦
      rw (max_right less, all_gone p) (omega (arith, common n m q (p - q) (rw (restored less) h)))
  | inr more ↦
      rw (max_left more, all_gone q) (omega (arith, common' n m p (q - p) (rw (restored' more) h)))
]
  where
    max_right : leb q p ≡ true → max q p ≡ p
    max_right e = ground arith

    max_left : leb q p ≡ false → max q p ≡ q
    max_left e = ground arith

    all_gone : (k : ℕ) → k - k ≡ 0
    all_gone k = omega arith

    restored : leb q p ≡ true → p - q + q ≡ p
    restored e = ground arith

    restored' : leb q p ≡ false → q - p + p ≡ q
    restored' e = ground arith

-- Two comparisons over their own denominators A, B and B, C.
chain :
    (a a' b b' c c' A B C : ℕ)
    → 0 < B
    → a * B + b' * A ≤ b * A + a' * B
    → b * C + c' * B ≤ c * B + b' * C
    → a * C + c' * A ≤ c * A + a' * C
chain a a' b b' c c' A B C positive h k = cancel _ _ B positive (
    grind (
      arith,
      times (a * B + b' * A) (b * A + a' * B) C h,
      times (b * C + c' * B) (c * B + b' * C) A k,
    ))

pub Le-trans : (a b c : Decimal) → Le a b → Le b c → Le a c
unfolding Le
Le-trans a b c h k =
    chain (pos_part a.coefficient) (neg_part a.coefficient) (pos_part b.coefficient)
      (neg_part b.coefficient) (pos_part c.coefficient) (neg_part c.coefficient) (10 ^ a.places)
      (10 ^ b.places) (10 ^ c.places) (pow_pos b.places) h k

-- `min(a, b)` is at most both.
pub min_of-Le : (a b : Decimal) → Le (min_of a b) a × Le (min_of a b) b
unfolding min_of
min_of-Le a b = elim (Bool-cases (lt b a)) [
  | inl less ↦ rw less (Le_of_Lt b a (lt→Lt b a less), Le-refl b)
  | inr more ↦ rw more (Le-refl a, lt→Le b a more)
]

-- `max(a, b)` is at least both.
pub Le-max_of : (a b : Decimal) → Le a (max_of a b) × Le b (max_of a b)
unfolding max_of
Le-max_of a b = elim (Bool-cases (lt a b)) [
  | inl less ↦ rw less (Le_of_Lt a b (lt→Lt a b less), Le-refl b)
  | inr more ↦ rw more (Le-refl a, lt→Le a b more)
]

floor-le : (n d : ℕ) → 0 < d → n / d * d ≤ n
floor-le n d h = grind arith

add_back : (p q : ℕ) → leb q p ≡ true → p - q + q ≡ p
add_back p q e = ground arith

add_back' : (p q : ℕ) → leb q p ≡ false → q - p + p ≡ q
add_back' p q e = ground arith

floor-scaled : (n d p : ℕ) → n / 10 ^ d * 10 ^ (d + p) ≤ n * 10 ^ p
floor-scaled n d p =
    rw (pow-add d p, ← mul_assoc (n / 10 ^ d) (10 ^ d) (10 ^ p))
      (times _ _ (10 ^ p) (floor-le n (10 ^ d) (pow_pos d)))

rounded_down :
    (n xp p : ℕ)
    → ((if leb xp p then n * 10 ^ (p - xp) else n / 10 ^ (xp - p))) * 10 ^ xp ≤ n * 10 ^ p
rounded_down n xp p = elim (Bool-cases (leb xp p)) [
  | inl fewer ↦
      rw (fewer, mul_assoc n (10 ^ (p - xp)) (10 ^ xp), ← pow-add (p - xp) xp, add_back p xp fewer)
        (omega arith)
  | inr more ↦ rw more (rw (add_back' p xp more) at (floor-scaled n (xp - p) p))
]

quantize_down_parts :
    (c : ℤ) (xp p : ℕ) {q : Decimal}
    → neg_part c ≡ 0
    → quantize (record { coefficient = c; places = xp }) p round_down ≡ ok q
    → Le q (record { coefficient = c; places = xp })
unfolding quantize Le
quantize_down_parts (pos n) xp p h e = ground (arith, rounded_down n xp p)
quantize_down_parts (negsuc n) xp p h e = absurd (omega arith)

-- Rounding a number down that is not negative gives at most that number.
pub quantize_down-Le :
    (x : Decimal) (p : ℕ) {q : Decimal}
    → neg_part x.coefficient ≡ 0
    → quantize x p round_down ≡ ok q
    → Le q x
quantize_down-Le x p h e = quantize_down_parts x.coefficient x.places p h e
