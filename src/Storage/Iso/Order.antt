-- ===== src/Storage/Iso/Order.antt =====
-- How the texts of the instants of one second are ordered.
use mathlib.Core.List.{append_assoc}
use native.Mathlib.Nat.{pow-suc}
use native.Mathlib.Omega.{arith}
use japan_agent.Base.{
  ℕ, zero, suc, ◌+◌, ◌/◌, ◌%◌, ◌^◌, ◌<◌, ◌≡◌, refl, Bool, not, ◌&&◌, ◌||◌, [], ◌∷◌, ◌++◌, ltb, leb,
  ◌==◌,
}
use japan_agent.Base.Text.{codes_before}
use japan_agent.Base.Decimal.Format.{Text, last_digits}
use japan_agent.Time.{Instant, seconds}
use japan_agent.Storage.Iso.{isoformat, iso_le, second_text, fraction_text}

codes_before-prefix : (p s t : Text) → codes_before (p ++ s) (p ++ t) ≡ codes_before s t
codes_before-prefix [] s t = refl
codes_before-prefix (c ∷ p) s t = ground (arith, codes_before-prefix p s t)

digit_order :
    (m n : ℕ) (b : Bool)
    → (ltb (m / 10) (n / 10)
        || ((m / 10 == n / 10)
            && (ltb (48 + m % 10) (48 + n % 10) || ((48 + m % 10 == 48 + n % 10) && b))))
      ≡ (ltb m n || ((m == n) && b))
digit_order m n b = ground arith

whole_seconds : (s m : ℕ) → m < 1_000_000 → (seconds s + m) / 1_000_000 ≡ s
whole_seconds s m h = omega arith

rest_micros : (s m : ℕ) → m < 1_000_000 → (seconds s + m) % 1_000_000 ≡ m
rest_micros s m h = omega arith

-- Digits of one width are ordered as their numbers, and what follows decides between equal ones.
digits_before :
    (p m n : ℕ) (s t : Text)
    → m < 10 ^ p
    → n < 10 ^ p
    → codes_before (last_digits p m ++ s) (last_digits p n ++ t)
      ≡ (ltb m n || ((m == n) && codes_before s t))
unfolding last_digits
digits_before zero m n s t h k = ground arith
digits_before (suc p) m n s t h k =
    let last_m = (48 + m % 10) ∷ [] in
    let last_n = (48 + n % 10) ∷ [] in
    rw
      (
        append_assoc (last_digits p (m / 10)) last_m s,
        append_assoc (last_digits p (n / 10)) last_n t,
        digits_before p (m / 10) (n / 10) (last_m ++ s) (last_n ++ t)
            (omega (arith, h, pow-suc 10 p)) (omega (arith, k, pow-suc 10 p)),
      )
      (digit_order m n (codes_before s t))

unfoldable end_text : ℕ → Text
unfolding fraction_text
end_text micro = fraction_text micro ++ b'Z' ∷ []

isoformat-split :
    (s m : ℕ) → m < 1_000_000 → isoformat (seconds s + m) ≡ second_text s ++ end_text m
unfolding isoformat end_text
isoformat-split s m h = rw (whole_seconds s m h, rest_micros s m h) refl

end_before :
    (m n : ℕ)
    → m < 1_000_000
    → n < 1_000_000
    → not (codes_before (end_text n) (end_text m)) ≡ ((n == 0) || (not (m == 0) && leb m n))
unfolding end_text
end_before m n h k = ground (arith, digits_before 6 n m (b'Z' ∷ []) (b'Z' ∷ []) k h)

iso_le-eq : (a b : Instant) → iso_le a b ≡ not (codes_before (isoformat b) (isoformat a))
unfolding iso_le
iso_le-eq a b = refl

-- The texts of the instants of one second are ordered as the instants, but for the whole second,
-- whose text has no fraction and comes after all the others.
pub iso_le_fraction :
    (s m n : ℕ)
    → m < 1_000_000
    → n < 1_000_000
    → iso_le (seconds s + m) (seconds s + n) ≡ ((n == 0) || (not (m == 0) && leb m n))
iso_le_fraction s m n h k =
    rw
      (
        iso_le-eq (seconds s + m) (seconds s + n),
        isoformat-split s m h,
        isoformat-split s n k,
        codes_before-prefix (second_text s) (end_text n) (end_text m),
      )
      (end_before m n h k)
