-- ===== src/Predict/Cash/Sign.antt =====
-- An amount less a debit that it covers.
use japan_agent.Base.{ℕ, zero, suc, ◌+◌, ◌*◌, ◌^◌, ◌≤◌, ◌<◌, ◌≡◌, refl, ◌∙◌, ap, false, arith}
use japan_agent.Base.Int.{ℤ, pos, negsuc, neg_part, sub_ℕ, neg_ℕ}
use japan_agent.Base.Decimal.{
  Decimal, dec, add, mul, lt, fix, exact_add, exact_mul, magnitude, precision_limit,
}
use japan_agent.Base.Decimal.Order.{fix_of_fits}
use japan_agent.Base.Decimal.Linear.{at_places}
use japan_agent.Base.Decimal.Sign.{
  IsNonneg, fix-IsNonneg, exact_add-IsNonneg, neg_part-neg, pos_part-neg,
}

abbrev minus_one : Decimal
minus_one = record { coefficient = negsuc 0; places = 0 }

minus_coefficient : (n : ℕ) → sub_ℕ (0 * n + 1 * 0) (0 * 0 + 1 * n) ≡ neg_ℕ n
minus_coefficient zero = ground arith
minus_coefficient (suc n) = ground arith

minus_exact :
    (n p : ℕ) → exact_mul minus_one (dec n p) ≡ record { coefficient = neg_ℕ n; places = p }
unfolding exact_mul
minus_exact n p = cc (minus_coefficient n, zero_add p)
  where
    zero_add : (k : ℕ) → 0 + k ≡ k
    zero_add k = omega arith

magnitude-neg : (n : ℕ) → magnitude (neg_ℕ n) ≡ n
magnitude-neg zero = refl
magnitude-neg (suc n) = refl

times_minus_one :
    (n p : ℕ)
    → n < precision_limit
    → mul minus_one (dec n p) ≡ record { coefficient = neg_ℕ n; places = p }
unfolding mul
times_minus_one n p h =
    ap fix (minus_exact n p)
    ∙ fix_of_fits (record { coefficient = neg_ℕ n; places = p }) (rw (magnitude-neg n) h)

enough_to_pay : (m n q p : ℕ) → lt (dec m q) (dec n p) ≡ false → n * 10 ^ q ≤ m * 10 ^ p
unfolding lt
enough_to_pay m n q p h = ground arith

debit_parts :
    (a x : ℤ) (q p : ℕ)
    → magnitude x < precision_limit
    → neg_part a ≡ 0
    → neg_part x ≡ 0
    → lt (record { coefficient = a; places = q }) (record { coefficient = x; places = p }) ≡ false
    → IsNonneg (
        add
          (record { coefficient = a; places = q })
          (mul minus_one (record { coefficient = x; places = p })))
unfolding add
debit_parts (negsuc _) x q p fits h k enough = absurd (omega arith)
debit_parts (pos m) (negsuc _) q p fits h k enough = absurd (omega arith)
debit_parts (pos m) (pos n) q p fits h k enough = rw (times_minus_one n p fits) (
    fix-IsNonneg (exact_add (dec m q) (record { coefficient = neg_ℕ n; places = p })) (
      exact_add-IsNonneg (dec m q) (record { coefficient = neg_ℕ n; places = p })
        (rw (neg_part-neg n, pos_part-neg n)
          (omega (arith, at_places n m q p (enough_to_pay m n q p enough))))))

-- What is left of an amount after a debit that it covers.
pub debit-IsNonneg :
    (a x : Decimal)
    → magnitude x.coefficient < precision_limit
    → IsNonneg a
    → IsNonneg x
    → lt a x ≡ false
    → IsNonneg (add a (mul minus_one x))
debit-IsNonneg a x fits h k enough =
    debit_parts a.coefficient x.coefficient a.places x.places fits h.nonneg k.nonneg enough
