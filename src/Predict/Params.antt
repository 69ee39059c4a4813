-- ===== src/Predict/Params.antt =====
-- predict_agent/policy_params.py: the parameters of a paper policy.
pub mod Parse
pub mod Roundtrip
use japan_agent.Base.{ℕ, Option, none, some, String, str_eq, if◌then◌else◌}
use japan_agent.Base.Decimal.{Decimal}

-- PROBABILITY_SOURCES
pub data Probability : Type 0 where
  bounds mid : Probability

-- The keys of CONFIDENCE_RANK
pub data Confidence : Type 0 where
  low medium high : Confidence

abbrev pub confidence_rank : Confidence → ℕ
confidence_rank low = 0
confidence_rank medium = 1
confidence_rank high = 2

-- The key that a text is, if it is one.
unfoldable pub confidence_of : String → Option Confidence
confidence_of text =
    if str_eq text "low"
    then some low
    else if str_eq text "medium"
    then some medium
    else if str_eq text "high"
    then some high
    else none

pub record PolicyParams : Type 0 where
  pub probability : Probability
  pub starting_bankroll : Decimal
  pub min_edge : Decimal
  pub min_confidence : Confidence
  pub kelly_fraction : Decimal
  pub cap_market : Decimal
  pub cap_event : Decimal
  pub cap_category : Decimal
  pub cap_total_open : Decimal
  pub max_slippage : Decimal
  pub min_hours_to_close : ℕ
  pub max_book_age_seconds : ℕ
