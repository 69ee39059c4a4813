-- ===== src/Base/Decimal/Format.antt =====
-- `format(x, "f")` and `Decimal(text)`, on the code points of a text. Digits other than the ten of
-- ASCII are left out, and so are exponents beyond the limits of the context.
use Prim.Native.Nat.{ℕ, zero, suc, ◌+◌, ◌-◌, ◌*◌, ◌/◌, ◌%◌, ◌^◌}
use mathlib.Core.Path.{◌≡◌, refl}
use mathlib.Core.Bool.{Bool, true, false, not, ◌&&◌, ◌||◌}
use mathlib.Core.Option.{Option, none, some}
use mathlib.Core.List.{List, [], ◌∷◌, ◌++◌}
use japan_agent.Base.Tests.{ltb, leb, ◌==◌, if◌then◌else◌}
use japan_agent.Base.Text.{is_space}
use japan_agent.Base.Lists.{length, filter}
use japan_agent.Base.Int.{ℤ, pos, negsuc, neg_ℕ}
use japan_agent.Base.Decimal.{Decimal, dec, magnitude, shift_places}

abbrev pub Text : Type 0
Text = List ℕ

-- The digits of a number, its own value being fuel enough.
unfoldable pub digits_fuel : ℕ → ℕ → Text
digits_fuel zero n = (48 + n % 10) ∷ []
digits_fuel (suc f) n =
    let more = digits_fuel f (n / 10) ++ (48 + n % 10) ∷ [] in
    if ltb n 10 then (48 + n) ∷ [] else more

-- The last digits of a number, as many as asked.
unfoldable pub last_digits : ℕ → ℕ → Text
last_digits zero n = []
last_digits (suc p) n = last_digits p (n / 10) ++ (48 + n % 10) ∷ []

abbrev pub sign_text : ℤ → Text
sign_text (pos _) = []
sign_text (negsuc _) = b'-' ∷ []

-- The point and the digits after it, where there are any.
unfoldable pub point_text : ℕ → ℕ → Text
unfolding last_digits
point_text zero n = []
point_text (suc p) n = b'.' ∷ last_digits (suc p) n

unfoldable pub unsigned_text : ℕ → ℕ → Text
unfolding digits_fuel point_text
unsigned_text n p = let whole = n / 10 ^ p in digits_fuel whole whole ++ point_text p (n % 10 ^ p)

-- `format(x, "f")`
unfoldable pub to_text : Decimal → Text
unfolding unsigned_text
to_text x = sign_text x.coefficient ++ unsigned_text (magnitude x.coefficient) x.places

abbrev pub is_digit : ℕ → Bool
is_digit c = leb b'0' c && leb c b'9'

-- The digits that a text starts with, and what follows them.
unfoldable pub span_digits : Text → Text × Text
span_digits [] = ([], [])
span_digits (c ∷ cs) =
    let rest = span_digits cs in if is_digit c then (c ∷ rest.0, rest.1) else ([], c ∷ cs)

unfoldable pub value_from : ℕ → Text → ℕ
value_from n [] = n
value_from n (c ∷ cs) = value_from (n * 10 + (c - 48)) cs

-- What `Decimal(text)` gives: InvalidOperation, an infinity or no number, or a finite value.
pub data Parsed : Type 0 where
  unreadable not_finite : Parsed
  finite : Decimal → Parsed

abbrev pub is_empty : Text → Bool
is_empty [] = true
is_empty (_ ∷ _) = false

abbrev pub signed : Bool → ℕ → ℤ
signed true n = neg_ℕ n
signed false n = pos n

-- The exponent after E: its sign, and at least one digit to the end.
unfoldable pub exponent_digits : Bool → Text → Option (Bool × ℕ)
unfolding span_digits value_from
exponent_digits negative cs =
    let (ds, rest) = span_digits cs in
    if is_empty ds || not (is_empty rest) then none else some (negative, value_from 0 ds)

unfoldable pub exponent_of : Text → Option (Bool × ℕ)
unfolding exponent_digits
exponent_of [] = none
exponent_of (c ∷ cs) =
    if c == b'-'
    then exponent_digits true cs
    else if c == b'+'
    then exponent_digits false cs
    else exponent_digits false (c ∷ cs)

abbrev pub is_e : ℕ → Bool
is_e c = c == b'e' || c == b'E'

-- The value of a coefficient and its places, moved by what follows the digits.
unfoldable pub scaled : Bool → ℕ → ℕ → Text → Parsed
unfolding exponent_of
scaled negative n places [] = finite (record { coefficient = signed negative n; places = places })
scaled negative n places (c ∷ cs) = if not (is_e c) then unreadable else elim (exponent_of cs) [
  | none ↦ unreadable
  | some (true, e) ↦ finite (record { coefficient = signed negative n; places = places + e })
  | some (false, e) ↦ finite (shift_places (signed negative n) places e)
]

-- What follows the digits of the whole part.
unfoldable pub fraction : Bool → Text → Text → Parsed
unfolding span_digits value_from scaled
fraction negative whole [] =
    if is_empty whole then unreadable else scaled negative (value_from 0 whole) 0 []
fraction negative whole (c ∷ cs) =
    let (ds, rest) = span_digits cs in
    if c == b'.'
    then (if is_empty whole && is_empty ds
        then unreadable
        else scaled negative (value_from (value_from 0 whole) ds) (length ds) rest)
    else if is_empty whole
    then unreadable
    else scaled negative (value_from 0 whole) 0 (c ∷ cs)

abbrev pub lower : ℕ → ℕ
lower c = if leb b'A' c && leb c b'Z' then c + 32 else c

-- The word that a text starts with, in any case; what follows it.
unfoldable pub after_word : Text → Text → Option Text
after_word [] cs = some cs
after_word (w ∷ ws) [] = none
after_word (w ∷ ws) (c ∷ cs) = let rest = after_word ws cs in if lower c == w then rest else none

abbrev pub all_digits : Text → Bool
all_digits [] = true
all_digits (c ∷ cs) = is_digit c && all_digits cs

abbrev pub ends_digits : Option Text → Bool
ends_digits none = false
ends_digits (some rest) = all_digits rest

abbrev pub ends : Option Text → Bool
ends none = false
ends (some rest) = is_empty rest

abbrev inf_word : Text
inf_word = b'i' ∷ b'n' ∷ b'f' ∷ []

abbrev infinity_word : Text
infinity_word = b'i' ∷ b'n' ∷ b'f' ∷ b'i' ∷ b'n' ∷ b'i' ∷ b't' ∷ b'y' ∷ []

abbrev nan_word : Text
nan_word = b'n' ∷ b'a' ∷ b'n' ∷ []

-- An infinity, or no number, which may be signalling and have digits.
unfoldable pub is_special : Text → Bool
unfolding after_word
is_special cs =
    (ends (after_word inf_word cs) || ends (after_word infinity_word cs))
    || (ends_digits (after_word nan_word cs) || ends_digits (after_word (b's' ∷ nan_word) cs))

unfoldable pub unsigned_of : Bool → Text → Parsed
unfolding span_digits fraction is_special
unsigned_of negative cs =
    let (whole, rest) = span_digits cs in
    if is_special cs then not_finite else fraction negative whole rest

unfoldable pub signed_of : Text → Parsed
unfolding unsigned_of
signed_of [] = unreadable
signed_of (c ∷ cs) =
    if c == b'-'
    then unsigned_of true cs
    else if c == b'+'
    then unsigned_of false cs
    else unsigned_of false (c ∷ cs)

unfoldable pub rstripped : Text → Text
unfolding is_space
rstripped [] = []
rstripped (c ∷ cs) = let rest = rstripped cs in if is_space c && is_empty rest then [] else c ∷ rest

unfoldable pub lstripped : Text → Text
unfolding is_space
lstripped [] = []
lstripped (c ∷ cs) = let rest = lstripped cs in if is_space c then rest else c ∷ cs

-- `Decimal(text)`: surrounding space and all underscores are removed first.
unfoldable pub of_text : Text → Parsed
unfolding signed_of rstripped lstripped
of_text text = signed_of (filter (λ c. not (c == b'_')) (lstripped (rstripped text)))

printed :
    to_text (record { coefficient = negsuc 4; places = 2 }) ≡ b'-' ∷ b'0' ∷ b'.' ∷ b'0' ∷ b'5' ∷ []
unfolding to_text
printed = refl

read :
    (of_text (b' ' ∷ b'1' ∷ b'2' ∷ b'.' ∷ b'5' ∷ b'0' ∷ []) ≡ finite (dec 1250 2))
    × (of_text (b'1' ∷ b'e' ∷ b'3' ∷ []) ≡ finite (dec 1000 0))
    × (of_text (b'-' ∷ b'I' ∷ b'n' ∷ b'f' ∷ []) ≡ not_finite)
    × (of_text (b'.' ∷ []) ≡ unreadable)
unfolding of_text
read = (refl, refl, refl, refl)
