-- ===== src/Base/Decimal/Roundtrip.antt =====
-- A decimal is read back from its text.
use Prim.Native.Nat.{ℕ, zero, suc, ◌+◌, ◌*◌, ◌/◌, ◌%◌, ◌^◌, ◌<◌}
use mathlib.Core.Path.{◌≡◌, refl, ap, ◌∙◌, subst}
use mathlib.Core.Bool.{Bool, true, false, not}
use mathlib.Core.Logic.{inl, inr}
use mathlib.Core.List.{[], ◌∷◌, ◌++◌, append-nil}
use native.Mathlib.Omega.{arith}
use japan_agent.Base.Tests.{ltb, ◌==◌, Bool-cases}
use japan_agent.Base.Lists.{filter, All}
use japan_agent.Base.Text.{is_space}
use japan_agent.Base.Int.{ℤ, pos, negsuc}
use japan_agent.Base.Decimal.{Decimal}
use japan_agent.Base.Decimal.Order.{pow_pos}
use japan_agent.Base.Decimal.Format.{
  Text, digits_fuel, last_digits, point_text, unsigned_text, to_text, is_digit, span_digits,
  value_from, finite, is_empty, signed, scaled, fraction, after_word, is_special, unsigned_of,
  signed_of, rstripped, lstripped, of_text,
}
use japan_agent.Base.Decimal.Digits.{
  IsDigit, digits_fuel-IsDigit, last_digits-IsDigit, value_from-digits, value_from-last,
  length-last_digits,
}

-- A text that does not start with a digit.
abbrev StartsPlainly : Text → Type 0
StartsPlainly [] = Unit
StartsPlainly (c ∷ _) = is_digit c ≡ false

span_digits-append :
    (ds rest : Text) → All IsDigit ds → StartsPlainly rest → span_digits (ds ++ rest) ≡ (ds, rest)
unfolding span_digits
span_digits-append [] [] h k = refl
span_digits-append [] (c ∷ cs) h k = rw k refl
span_digits-append (d ∷ ds) rest (h, hs) k =
    rw (span_digits-append ds rest hs k, yes_digit d h) refl
  where
    yes_digit : (c : ℕ) → IsDigit c → is_digit c ≡ true
    yes_digit c i = ground arith

-- A character that neither `strip` nor the removal of underscores takes away.
abbrev IsPlain : ℕ → Type 0
IsPlain c = (is_space c ≡ false) × (c == b'_' ≡ false)

digit-IsPlain : (c : ℕ) → IsDigit c → IsPlain c
unfolding is_space
digit-IsPlain c h = ground arith

digits-IsPlain : (cs : Text) → All IsDigit cs → All IsPlain cs
digits-IsPlain [] h = tt
digits-IsPlain (c ∷ cs) (h, hs) = (digit-IsPlain c h, digits-IsPlain cs hs)

IsPlain-append : (xs ys : Text) → All IsPlain xs → All IsPlain ys → All IsPlain (xs ++ ys)
IsPlain-append [] ys h k = k
IsPlain-append (x ∷ xs) ys (h, hs) k = (h, IsPlain-append xs ys hs k)

rstripped_plain : (cs : Text) → All IsPlain cs → rstripped cs ≡ cs
unfolding rstripped
rstripped_plain [] h = refl
rstripped_plain (c ∷ cs) (h, hs) = rw (rstripped_plain cs hs, h.0) refl

lstripped_plain : (cs : Text) → All IsPlain cs → lstripped cs ≡ cs
unfolding lstripped
lstripped_plain [] h = refl
lstripped_plain (c ∷ cs) (h, hs) = rw h.0 refl

filter_plain : (cs : Text) → All IsPlain cs → filter (λ c. not (c == b'_')) cs ≡ cs
filter_plain [] h = refl
filter_plain (c ∷ cs) (h, hs) = rw (h.1, filter_plain cs hs) refl

-- A text that starts with a digit and goes on plainly.
of_text_plain : (cs : Text) → All IsPlain cs → of_text cs ≡ signed_of cs
unfolding of_text
of_text_plain cs h = rw (rstripped_plain cs h, lstripped_plain cs h, filter_plain cs h) refl

not_empty-append : (cs : Text) (c : ℕ) → is_empty (cs ++ c ∷ []) ≡ false
not_empty-append [] c = refl
not_empty-append (d ∷ ds) c = refl

digits_not_empty : (f n : ℕ) → is_empty (digits_fuel f n) ≡ false
unfolding digits_fuel
digits_not_empty zero n = refl
digits_not_empty (suc f) n = elim (Bool-cases (ltb n 10)) [
  | inl small ↦ rw small refl
  | inr large ↦ rw large (not_empty-append (digits_fuel f (n / 10)) (48 + n % 10))
]

-- A text that starts with a digit is no special value, and has no sign.
starts_with_digit :
    (ds rest : Text)
    → All IsDigit ds
    → is_empty ds ≡ false
    → (is_special (ds ++ rest) ≡ false) × (signed_of (ds ++ rest) ≡ unsigned_of false (ds ++ rest))
unfolding is_special after_word signed_of
starts_with_digit [] rest h k = absurd (cc k)
starts_with_digit (d ∷ ds) rest (h, hs) k = (ground (arith, h), ground (arith, h))

tail-IsPlain : (p n : ℕ) → All IsPlain (point_text p n) × StartsPlainly (point_text p n)
unfolding is_space point_text
tail-IsPlain zero n = (tt, tt)
tail-IsPlain (suc p) n = (((refl, refl), digits-IsPlain _ (last_digits-IsDigit (suc p) n)), refl)

fraction_read :
    (negative : Bool) (whole : Text) (p n : ℕ)
    → is_empty whole ≡ false
    → n < 10 ^ p
    → fraction negative whole (point_text p n)
      ≡ finite
          (record { coefficient = signed negative (value_from 0 whole * 10 ^ p + n); places = p })
unfolding fraction scaled point_text
fraction_read negative whole zero n h k =
    rw h (
      ap (λ (m : ℕ). finite (record { coefficient = signed negative m; places = 0 })) (omega arith))
fraction_read negative whole (suc p) n h k =
    rw
      (
        span_whole,
        h,
        value_from-last (value_from 0 whole) (suc p) n k,
        length-last_digits (suc p) n,
      )
      refl
  where
    span_whole : span_digits (last_digits (suc p) n) ≡ (last_digits (suc p) n, [])
    span_whole =
        subst (λ (cs : Text). span_digits cs ≡ (last_digits (suc p) n, []))
          (append-nil (last_digits (suc p) n))
          (span_digits-append (last_digits (suc p) n) [] (last_digits-IsDigit (suc p) n) tt)

division : (n d : ℕ) → 0 < d → n / d * d + n % d ≡ n
division n d h = grind arith

below : (n d : ℕ) → 0 < d → n % d < d
below n d h = grind arith

unsigned_read :
    (negative : Bool) (n p : ℕ)
    → unsigned_of negative (unsigned_text n p)
      ≡ finite (record { coefficient = signed negative n; places = p })
unfolding unsigned_of unsigned_text
unsigned_read negative n p =
    let whole = n / 10 ^ p in
    let part = n % 10 ^ p in
    let ds = digits_fuel whole whole in
    let are_digits = digits_fuel-IsDigit whole whole in
    rw
      (
        (starts_with_digit ds (point_text p part) are_digits (digits_not_empty whole whole)).0,
        span_digits-append ds (point_text p part) are_digits (tail-IsPlain p part).1,
        fraction_read negative ds p part (digits_not_empty whole whole)
            (below n (10 ^ p) (pow_pos p)),
        value_from-digits whole whole (omega arith),
        division n (10 ^ p) (pow_pos p),
      )
      refl

unsigned-IsPlain : (n p : ℕ) → All IsPlain (unsigned_text n p)
unfolding unsigned_text
unsigned-IsPlain n p =
    let whole = n / 10 ^ p in
    IsPlain-append (digits_fuel whole whole) (point_text p (n % 10 ^ p))
      (digits-IsPlain _ (digits_fuel-IsDigit whole whole)) (tail-IsPlain p (n % 10 ^ p)).0

unsigned_signed : (n p : ℕ) → signed_of (unsigned_text n p) ≡ unsigned_of false (unsigned_text n p)
unfolding unsigned_text
unsigned_signed n p =
    let whole = n / 10 ^ p in
    (starts_with_digit (digits_fuel whole whole) (point_text p (n % 10 ^ p))
      (digits_fuel-IsDigit whole whole) (digits_not_empty whole whole)).1

read_back :
    (c : ℤ) (p : ℕ)
    → of_text (to_text (record { coefficient = c; places = p }))
      ≡ finite (record { coefficient = c; places = p })
unfolding to_text
read_back (pos n) p =
    of_text_plain (unsigned_text n p) (unsigned-IsPlain n p)
    ∙ unsigned_signed n p
    ∙ unsigned_read false n p
read_back (negsuc n) p =
    of_text_plain (b'-' ∷ unsigned_text (suc n) p) (minus_plain, unsigned-IsPlain (suc n) p)
    ∙ negated (unsigned_text (suc n) p)
    ∙ unsigned_read true (suc n) p
  where
    minus_plain : IsPlain b'-'
    minus_plain = (unfold is_space in refl, refl)

    negated : (cs : Text) → signed_of (b'-' ∷ cs) ≡ unsigned_of true cs
    negated cs = unfold signed_of in refl

-- Every finite decimal is read back from its text, with the same coefficient and places.
pub of_text-to_text : (x : Decimal) → of_text (to_text x) ≡ finite x
of_text-to_text x = read_back x.coefficient x.places
