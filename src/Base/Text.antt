-- ===== src/Base/Text.antt =====
-- `str.upper`, as far as the program compares its result with a word of ASCII letters.
use Prim.Native.Nat.{ℕ, ◌-◌}
use Prim.Native.Char.{code}
use Prim.Native.String.{String, [], ◌∷◌}
use mathlib.Core.Path.{◌≡◌, refl, sym, ◌∙◌}
use mathlib.Core.Logic.{inl, inr}
use text.Mathlib.Text.{◌==◌ as str_eq}
use text.Mathlib.TextEquality.{eq_iff as str_eq_iff}
use mathlib.Core.Bool.{Bool, true, false, ◌&&◌, ◌||◌, false≢true}
use mathlib.Core.List.{List, ◌++◌}
use japan_agent.Base.Tests.{Bool-cases, ltb, leb, ◌==◌, if◌then◌else◌}

-- The code points of a text.
abbrev pub codes : String → List ℕ
codes [] = List.[]
codes (c ∷ s) = List.◌∷◌ (code c) (codes s)

abbrev one : ℕ → List ℕ
one c = List.◌∷◌ c List.[]

-- The upper case of one character. Besides a to z, these have ASCII letters for upper case: the
-- sharp s, the dotless i, the long s, and the ligatures of f and of st.
unfoldable pub upper_code : ℕ → List ℕ
upper_code c =
    if leb b'a' c && leb c b'z'
    then one (c - 32)
    else if c == 0xdf
    then one b'S' ++ one b'S'
    else if c == 0x131
    then one b'I'
    else if c == 0x17f
    then one b'S'
    else if c == 0xfb00
    then one b'F' ++ one b'F'
    else if c == 0xfb01
    then one b'F' ++ one b'I'
    else if c == 0xfb02
    then one b'F' ++ one b'L'
    else if c == 0xfb03
    then one b'F' ++ (one b'F' ++ one b'I')
    else if c == 0xfb04
    then one b'F' ++ (one b'F' ++ one b'L')
    else if c == 0xfb05 || c == 0xfb06
    then one b'S' ++ one b'T'
    else one c

unfoldable pub upper_codes : String → List ℕ
unfolding upper_code
upper_codes [] = List.[]
upper_codes (c ∷ s) = upper_code (code c) ++ upper_codes s

abbrev pub same_codes : List ℕ → List ℕ → Bool
same_codes List.[] List.[] = true
same_codes (List.◌∷◌ a s) (List.◌∷◌ b t) = (a == b) && same_codes s t
same_codes _ _ = false

-- `text.upper() == word`, for a word of ASCII letters
unfoldable pub upper_is : String → String → Bool
unfolding upper_codes
upper_is text word = same_codes (upper_codes text) (codes word)

mixed_case : (upper_is "FilLed" "FILLED" ≡ true) × (upper_is "FILLED " "FILLED" ≡ false)
unfolding upper_is
mixed_case = (refl, refl)

pub string_discrete : Discrete String
string_discrete a b = elim (Bool-cases (str_eq a b)) [
  | inl same ↦ yes ((str_eq_iff a b).0 same)
  | inr other ↦ no (λ e. false≢true (sym other ∙ (str_eq_iff a b).1 e))
]

-- The characters that `str.strip` removes.
unfoldable pub is_space : ℕ → Bool
is_space c =
    (leb 9 c && leb c 13)
    || ((leb 28 c && leb c 32)
        || (c == 0x85
            || (c == 0xa0
                || (c == 0x1680
                    || ((leb 0x2000 c && leb c 0x200a)
                        || (c == 0x2028
                            || (c == 0x2029 || (c == 0x202f || (c == 0x205f || c == 0x3000)))))))))

-- `not text.strip()`
unfoldable pub is_blank : String → Bool
unfolding is_space
is_blank [] = true
is_blank (c ∷ s) = is_space (code c) && is_blank s

-- `text.rstrip()` and `text.strip()`
unfoldable pub rstrip : String → String
unfolding is_space
rstrip [] = []
rstrip (c ∷ s) = let rest = rstrip s in if is_space (code c) && str_eq rest [] then [] else c ∷ rest

unfoldable pub strip : String → String
unfolding rstrip
strip [] = []
strip (c ∷ s) = let rest = strip s in if is_space (code c) then rest else rstrip (c ∷ s)

stripped : strip "  too late " ≡ "too late"
unfolding strip
stripped = refl

-- `text + other`
unfoldable pub concat : String → String → String
concat [] other = other
concat (c ∷ s) other = c ∷ concat s other

abbrev pub codes_before : List ℕ → List ℕ → Bool
codes_before List.[] List.[] = false
codes_before List.[] (List.◌∷◌ b t) = true
codes_before (List.◌∷◌ a s) List.[] = false
codes_before (List.◌∷◌ a s) (List.◌∷◌ b t) = ltb a b || ((a == b) && codes_before s t)

-- `text < other`, and the order of an ORDER BY
unfoldable pub text_before : String → String → Bool
text_before text other = codes_before (codes text) (codes other)
