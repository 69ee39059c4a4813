-- ===== src/Predict/Params/Roundtrip.antt =====
-- The artifact of a policy reads back as the policy.
use japan_agent.Base.{ℕ, zero, suc, ◌≤◌, arith, ◌≡◌, refl, true, ◌&&◌, some, [], ◌∷◌, ok}
use japan_agent.Base.Int.{pos}
use japan_agent.Base.Text.{codes}
use japan_agent.Base.Table.{Table, lookup}
use japan_agent.Base.Decimal.{Decimal, dec, lt, le}
use japan_agent.Base.Decimal.Format.{Text, to_text}
use japan_agent.Base.Decimal.Roundtrip.{of_text-to_text}
use japan_agent.Predict.Params.{
  Probability, bounds, mid, Confidence, low, medium, high, PolicyParams,
}
use japan_agent.Predict.Params.Parse.{
  Scalar, text, integer, Value, scalar, object, fields, decimal_field, fraction_field, positive_int,
  confidence_field, source_of, read_policy, policy_from_artifact,
}

abbrev source_text : Probability → Text
source_text bounds = codes "bounds"
source_text mid = codes "mid"

abbrev confidence_text : Confidence → Text
confidence_text low = codes "low"
confidence_text medium = codes "medium"
confidence_text high = codes "high"

abbrev amount : Decimal → Scalar
amount x = text (to_text x)

-- `PolicyParams.record`
unfoldable pub policy_record : PolicyParams → Table Value
policy_record p =
    ("probability", scalar (text (source_text p.probability)))
    ∷ ("starting_bankroll", scalar (amount p.starting_bankroll))
    ∷ ("min_edge", scalar (amount p.min_edge))
    ∷ ("min_confidence", scalar (text (confidence_text p.min_confidence)))
    ∷ ("kelly_fraction", scalar (amount p.kelly_fraction))
    ∷ (
      "caps",
      object (
          ("market", amount p.cap_market)
          ∷ ("event", amount p.cap_event)
          ∷ ("category", amount p.cap_category)
          ∷ ("total_open", amount p.cap_total_open)
          ∷ []),
    )
    ∷ ("max_slippage", scalar (amount p.max_slippage))
    ∷ ("min_hours_to_close", scalar (integer (pos p.min_hours_to_close)))
    ∷ ("max_book_age_seconds", scalar (integer (pos p.max_book_age_seconds)))
    ∷ []

-- The ranges of a policy.
pub record IsAdmissible (p : PolicyParams) : Type 0 where
  pub bankroll : lt (dec 0 0) p.starting_bankroll ≡ true
  pub min_edge : lt (dec 0 0) p.min_edge && lt p.min_edge (dec 1 0) ≡ true
  pub slippage : le (dec 0 0) p.max_slippage && lt p.max_slippage (dec 1 0) ≡ true
  pub kelly : lt (dec 0 0) p.kelly_fraction && le p.kelly_fraction (dec 1 0) ≡ true
  pub market : lt (dec 0 0) p.cap_market && le p.cap_market (dec 1 0) ≡ true
  pub event : lt (dec 0 0) p.cap_event && le p.cap_event (dec 1 0) ≡ true
  pub category : lt (dec 0 0) p.cap_category && le p.cap_category (dec 1 0) ≡ true
  pub total : lt (dec 0 0) p.cap_total_open && le p.cap_total_open (dec 1 0) ≡ true
  pub hours : 1 ≤ p.min_hours_to_close
  pub age : 1 ≤ p.max_book_age_seconds

amount_read : (x : Decimal) → decimal_field (some (amount x)) ≡ ok x
unfolding decimal_field
amount_read x = rw (of_text-to_text x) refl

fraction_read :
    (x : Decimal)
    → lt (dec 0 0) x && le x (dec 1 0) ≡ true
    → fraction_field (some (amount x)) ≡ ok x
unfolding fraction_field
fraction_read x h = rw (amount_read x, h) refl

count_read : (n : ℕ) → 1 ≤ n → positive_int (some (integer (pos n))) ≡ ok n
unfolding positive_int
count_read zero h = absurd (omega (arith, h))
count_read (suc n) h = refl

confidence_read : (c : Confidence) → confidence_field (some (text (confidence_text c))) ≡ ok c
unfolding confidence_field
confidence_read low = refl
confidence_read medium = refl
confidence_read high = refl

source_read : (s : Probability) → source_of (some (text (source_text s))) ≡ some s
unfolding source_of
source_read bounds = refl
source_read mid = refl

-- A policy whose values are in their ranges is read back from its own record as it was.
pub policy_from_artifact-policy_record :
    (p : PolicyParams) → IsAdmissible p → policy_from_artifact (fields (policy_record p)) ≡ ok p
unfolding policy_from_artifact policy_record lookup read_policy
policy_from_artifact-policy_record p h =
    rw
      (
        source_read p.probability,
        amount_read p.starting_bankroll,
        h.bankroll,
        amount_read p.min_edge,
        h.min_edge,
        amount_read p.max_slippage,
        h.slippage,
        confidence_read p.min_confidence,
        fraction_read p.kelly_fraction h.kelly,
        fraction_read p.cap_market h.market,
        fraction_read p.cap_event h.event,
        fraction_read p.cap_category h.category,
        fraction_read p.cap_total_open h.total,
        count_read p.min_hours_to_close h.hours,
        count_read p.max_book_age_seconds h.age,
      )
      refl
