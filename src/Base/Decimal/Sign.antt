-- ===== src/Base/Decimal/Sign.antt =====
-- Signs of sums, differences and products of decimals.
use Prim.Native.Nat.{ℕ, zero, suc, ◌+◌, ◌-◌, ◌*◌, ◌^◌, ◌≤◌, max}
use mathlib.Core.Path.{◌≡◌, refl}
use mathlib.Core.Bool.{Bool, true, false}
use native.Mathlib.Omega.{arith}
use japan_agent.Base.Tests.{leb, if◌then◌else◌}
use japan_agent.Base.Int.{ℤ, pos, negsuc, pos_part, neg_part, sub_ℕ, neg_ℕ, negate}
use japan_agent.Base.Decimal.{
  Decimal, dec, add, sub, mul, opposite, lt, fix, exact_add, exact_mul, round_to_precision,
  shift_places, scaled_pos, scaled_neg,
}
use japan_agent.Base.Decimal.Order.{Le}
use japan_agent.Base.Decimal.Linear.{at_places}

-- x >= 0
pub record IsNonneg (x : Decimal) : Type 0 where
  pub nonneg : neg_part x.coefficient ≡ 0

if-IsNonneg : (b : Bool) (x y : Decimal) → IsNonneg x → IsNonneg y → IsNonneg (if b then x else y)
if-IsNonneg true x y h k = h
if-IsNonneg false x y h k = k

shift-IsNonneg : (n p e : ℕ) → IsNonneg (shift_places (pos n) p e)
shift-IsNonneg n p e =
    if-IsNonneg (leb e p) (record { coefficient = pos n; places = p - e })
      (record { coefficient = pos (n * 10 ^ (e - p)); places = 0 }) (record { nonneg = refl })
      (record { nonneg = refl })

pub dec-IsNonneg : (n p : ℕ) → IsNonneg (dec n p)
dec-IsNonneg n p = record { nonneg = refl }

fix-IsNonneg_parts :
    (c : ℤ) (p : ℕ) → neg_part c ≡ 0 → IsNonneg (fix (record { coefficient = c; places = p }))
unfolding fix round_to_precision
fix-IsNonneg_parts (pos n) p h = search (if-IsNonneg, shift-IsNonneg, dec-IsNonneg)
fix-IsNonneg_parts (negsuc n) p h = absurd (omega arith)

pub fix-IsNonneg : (x : Decimal) → IsNonneg x → IsNonneg (fix x)
fix-IsNonneg x h = fix-IsNonneg_parts x.coefficient x.places h.nonneg

pub difference : (a b : ℕ) → b ≤ a → neg_part (sub_ℕ a b) ≡ 0
difference a b h = ground arith

pub exact_add-IsNonneg :
    (a b : Decimal)
    → (let p = max a.places b.places in
        scaled_neg a p + scaled_neg b p ≤ scaled_pos a p + scaled_pos b p)
    → IsNonneg (exact_add a b)
unfolding exact_add
exact_add-IsNonneg a b h = record { nonneg = difference _ _ h }

pub add-IsNonneg : (a b : Decimal) → IsNonneg a → IsNonneg b → IsNonneg (add a b)
unfolding add
add-IsNonneg a b h k =
    fix-IsNonneg _ (exact_add-IsNonneg a b (rw (h.nonneg, k.nonneg) (omega arith)))

pub lt-IsNonneg : (x : Decimal) → lt x (dec 0 0) ≡ false → IsNonneg x
unfolding lt
lt-IsNonneg x h = record { nonneg = ground arith }

pub mul-IsNonneg : (x y : Decimal) → IsNonneg x → IsNonneg y → IsNonneg (mul x y)
unfolding mul exact_mul
mul-IsNonneg x y h k =
    fix-IsNonneg (exact_mul x y)
      (record { nonneg = difference _ _ (rw (h.nonneg, k.nonneg) (omega arith)) })

pub neg_part-neg : (n : ℕ) → neg_part (neg_ℕ n) ≡ n
neg_part-neg zero = refl
neg_part-neg (suc n) = refl

pub pos_part-neg : (n : ℕ) → pos_part (neg_ℕ n) ≡ 0
pos_part-neg zero = refl
pos_part-neg (suc n) = refl

neg_part-negate :
    (c : ℤ) → neg_part c ≡ 0 → (pos_part (negate c) ≡ 0) × (neg_part (negate c) ≡ pos_part c)
neg_part-negate (pos zero) h = (refl, refl)
neg_part-negate (pos (suc n)) h = (refl, refl)
neg_part-negate (negsuc n) h = absurd (omega arith)

-- a - b, where b is at most a.
pub sub-IsNonneg : (a b : Decimal) → IsNonneg a → IsNonneg b → Le b a → IsNonneg (sub a b)
unfolding sub Le
sub-IsNonneg a b h k le = fix-IsNonneg _ (
    exact_add-IsNonneg a (opposite b) (
      let (zero_neg, flipped) = neg_part-negate b.coefficient k.nonneg in
      rw (h.nonneg, zero_neg, flipped)
        (omega (
          arith,
          at_places (pos_part b.coefficient) (pos_part a.coefficient) a.places b.places
              (let le' = (rw (h.nonneg, k.nonneg) at le) in omega (arith, le')),
        ))))
