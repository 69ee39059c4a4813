-- ===== src/Predict/Outcome.antt =====
-- predict_agent/resolution.py: the outcome that a resolution row states, and its check against
-- the prices of Gamma. JSON is taken as parsed; a price is `none` where it is no finite decimal.
pub mod Confirmed
use japan_agent.Base.{
  ℕ, ◌≡◌, ◌≢◌, ◌↔◌, ◌⊎◌, inl, inr, refl, Bool, true, false, ◌&&◌, ◌||◌, not, Option, none, some,
  List, [], ◌∷◌, String, str_eq, if◌then◌else◌, arith,
}
use japan_agent.Base.Int.{ℤ, pos, negsuc, eqb_ℤ}
use japan_agent.Base.Decimal.{Decimal, dec, eq, le}

pub data Outcome : Type 0 where
  yes no half unknown : Outcome

pub data CrossCheck : Type 0 where
  confirmed unchecked mismatch not_applicable : CrossCheck

-- `==` on the texts of outcomes
abbrev pub same_outcome : Outcome → Outcome → Bool
same_outcome yes yes = true
same_outcome no no = true
same_outcome half half = true
same_outcome unknown unknown = true
same_outcome _ _ = false

-- The keys of a resolution row that `_outcome` reads. A payout is `none` if it is no integer; the
-- price is after `str`.
pub record ResolutionRow : Type 0 where
  pub status : Option String
  pub payouts : Option (List (Option ℤ))
  pub price : String

-- `_PAYOUTS.get((a, b), "UNKNOWN")`
abbrev pub payout_outcome : ℤ → ℤ → Outcome
payout_outcome a b =
    if eqb_ℤ a (pos 1_000_000) && eqb_ℤ b (pos 0)
    then yes
    else if eqb_ℤ a (pos 0) && eqb_ℤ b (pos 1_000_000)
    then no
    else if eqb_ℤ a (pos 500_000) && eqb_ℤ b (pos 500_000)
    then half
    else unknown

abbrev pub payouts_outcome : List (Option ℤ) → Outcome
payouts_outcome (some a ∷ some b ∷ []) = payout_outcome a b
payouts_outcome _ = unknown

-- `_UMA_PRICES.get(price, "UNKNOWN")`
abbrev pub price_outcome : String → Outcome
price_outcome price =
    if str_eq price "1000000000000000000"
    then yes
    else if str_eq price "0"
    then no
    else if str_eq price "500000000000000000"
    then half
    else unknown

abbrev pub is_resolved : Option String → Bool
is_resolved none = false
is_resolved (some status) = str_eq status "resolved"

-- `_outcome`
unfoldable pub row_outcome : ResolutionRow → Option Outcome
row_outcome row = if not (is_resolved row.status) then none else elim row.payouts [
  | some payouts ↦ some (payouts_outcome payouts)
  | none ↦ some (price_outcome row.price)
]

-- Gamma's `outcomePrices`: no text, or one that does not parse, or whose value cannot be
-- indexed; a list; or a text, whose first character may be a decimal.
pub data GammaPrices : Type 0 where
  unusable : GammaPrices
  prices : List (Option Decimal) → GammaPrices
  quoted : Option Decimal → GammaPrices

-- `_GAMMA_PRICES.get(pair)`
abbrev pub pair_outcome : Decimal → Decimal → Option Outcome
pair_outcome a b =
    if eq a (dec 1 0) && eq b (dec 0 0)
    then some yes
    else if eq a (dec 0 0) && eq b (dec 1 0)
    then some no
    else if eq a (dec 5 1) && eq b (dec 5 1)
    then some half
    else none

unfoldable pub gamma_outcome : GammaPrices → Option Outcome
gamma_outcome (prices (some a ∷ some b ∷ [])) = pair_outcome a b
gamma_outcome _ = none

abbrev pub lean_of : Option Decimal → Option Outcome
lean_of none = none
lean_of (some p) = if le (dec 95 2) p then some yes else if le p (dec 5 2) then some no else none

-- `_gamma_lean`
unfoldable pub gamma_lean : GammaPrices → Option Outcome
gamma_lean unusable = none
gamma_lean (quoted p) = lean_of p
gamma_lean (prices []) = none
gamma_lean (prices (p ∷ _)) = lean_of p

abbrev pub is_half : Outcome → Bool
is_half half = true
is_half _ = false

-- The check of an outcome that is YES, NO or HALF.
unfoldable pub cross_check : Outcome → Option Outcome → Option Outcome → Option Outcome × CrossCheck
cross_check o (some exact) lean =
    if same_outcome exact o then (some o, confirmed) else (some unknown, mismatch)
cross_check o none (some lean) =
    if not (is_half o) && not (same_outcome lean o)
    then (some unknown, mismatch)
    else (some o, unchecked)
cross_check o none none = (some o, unchecked)

-- `reconcile_outcome`, on the outcome of the state
unfoldable pub reconcile_outcome : Option Outcome → GammaPrices → Option Outcome × CrossCheck
unfolding gamma_outcome gamma_lean cross_check
reconcile_outcome none g = (none, not_applicable)
reconcile_outcome (some unknown) g = (some unknown, not_applicable)
reconcile_outcome (some o) g = cross_check o (gamma_outcome g) (gamma_lean g)

pub same_outcome_iff : (a b : Outcome) → (same_outcome a b ≡ true) ↔ (a ≡ b)
same_outcome_iff a b = ground arith
