-- ===== src/Predict/Policy.antt =====
-- predict_agent/policy.py: the inputs of the paper policy, the size of a position, and the refusals
-- that do not depend on a book's depth. The details of a refusal, which are messages, are left out.
pub mod Ready
pub mod Sizing
pub mod Decide
pub mod Sound
pub mod Best
use japan_agent.Base.{
  ℕ, ◌+◌, Bool, true, false, not, ◌&&◌, ◌||◌, Option, none, some, is_some, List, [], ◌∷◌, String,
  str_eq, Result, ok, err, ◌>>=◌, if◌then◌else◌, ltb, all,
}
use japan_agent.Base.Decimal.{Decimal, dec, add, sub, mul, div, lt, min_of, max_of, DecimalError}
use japan_agent.Time.{Instant, hours, seconds}
use japan_agent.Predict.Outcome.{Outcome, yes, no, half, unknown, same_outcome}
use japan_agent.Predict.Gamma.{FeeSchedule, fee_rate}
use japan_agent.Predict.Params.{
  PolicyParams, Probability, bounds, mid, confidence_rank, confidence_of,
}
use japan_agent.Predict.Fills.{AskLevel, Walk, FillCode, one, nought, cost_per_share}

pub record SideBook : Type 0 where
  pub outcome : Outcome
  pub snapshot_id : ℕ
  pub fetched_at : Instant
  pub asks : List AskLevel
  pub tick_size : Decimal
  pub min_order_size : Decimal
  pub fees_enabled : Bool
  pub fee_schedule : Option FeeSchedule

pub record ForecastView : Type 0 where
  pub abstained : Bool
  pub p_low : Option Decimal
  pub p_mid : Option Decimal
  pub p_high : Option Decimal
  pub confidence : Option String
  pub rules_hash : String
  pub end_date : Option Instant

pub record Exposure : Type 0 where
  pub market : Decimal
  pub event : Decimal
  pub category : Decimal
  pub total : Decimal

-- The books are a dictionary from "YES" and "NO".
pub record PolicyInputs : Type 0 where
  pub forecast : ForecastView
  pub current_rules_hash : String
  pub eligible : Bool
  pub resolution_started : Bool
  pub already_traded : Bool
  pub books : List (Outcome × SideBook)
  pub equity : Decimal
  pub available_cash : Decimal
  pub exposure : Exposure
  pub now : Instant

pub record Trade : Type 0 where
  pub outcome : Outcome
  pub snapshot_id : ℕ
  pub q : Decimal
  pub best_ask : Decimal
  pub budget : Decimal
  pub walk : Walk

pub data Reason : Type 0 where
  forecast_abstained rules_changed eligibility_lost resolution_begun already_held : Reason
  low_confidence closing_soon no_book stale_book no_fee_rate : Reason
  no_depth no_edge no_budget below_min_order no_edge_after_fill cohort_closed : Reason
  unusable_book : FillCode → Reason

pub data Decided : Type 0 where
  traded : Trade → Decided
  refused : Reason → Decided

-- What raises: ValueError, KeyError, or an error of the decimal arithmetic.
pub data PolicyError : Type 0 where
  no_probabilities missing_rate missing_book : PolicyError
  arithmetic : DecimalError → PolicyError

unfoldable pub edge : Trade → Result DecimalError Decimal
unfolding cost_per_share
edge t = cost_per_share t.walk >>= λ c. ok (sub t.q c)

unfoldable pub kelly : Decimal → Decimal → Result DecimalError Decimal
kelly q price = div (sub q price) (sub one price)

unfoldable pub sides : Probability → Decimal → Decimal → Decimal → Decimal × Decimal
sides bounds low middle high = (low, sub one high)
sides mid low middle high = (middle, sub one middle)

unfoldable pub given_probabilities :
    Probability
    → Option Decimal
    → Option Decimal
    → Option Decimal
    → Result PolicyError (Decimal × Decimal)
unfolding sides
given_probabilities source (some low) (some middle) (some high) = ok (sides source low middle high)
given_probabilities source _ _ _ = err no_probabilities

-- The probabilities of YES and of NO.
unfoldable pub side_probabilities :
    ForecastView → Probability → Result PolicyError (Decimal × Decimal)
unfolding given_probabilities
side_probabilities f source = given_probabilities source f.p_low f.p_mid f.p_high

unfoldable pub headroom : Decimal → Decimal → Decimal → Decimal
headroom cap equity used = max_of nought (sub (mul cap equity) used)

-- The smallest of the caps' headrooms, the cash, and what is passed.
unfoldable pub capped : Decimal → PolicyInputs → PolicyParams → Decimal
unfolding headroom
capped wanted inputs params =
    min_of
      (min_of
        (min_of
          (min_of (min_of wanted (headroom params.cap_market inputs.equity inputs.exposure.market))
            (headroom params.cap_event inputs.equity inputs.exposure.event))
          (headroom params.cap_category inputs.equity inputs.exposure.category))
        (headroom params.cap_total_open inputs.equity inputs.exposure.total))
      inputs.available_cash

unfoldable pub budget_for :
    Decimal → Decimal → PolicyInputs → PolicyParams → Result DecimalError Decimal
unfolding kelly capped
budget_for q ask inputs params = kelly q ask >>= λ k.
    ok (max_of nought (capped (mul (mul params.kelly_fraction k) inputs.equity) inputs params))

-- `CONFIDENCE_RANK.get(confidence or "", -1) < CONFIDENCE_RANK[minimum]`
unfoldable pub below_confidence : Option String → ℕ → Bool
unfolding confidence_of
below_confidence none minimum = true
below_confidence (some text) minimum = elim (confidence_of text) [
  | none ↦ true
  | some c ↦ ltb (confidence_rank c) minimum
]

unfoldable pub closes_soon : Option Instant → Instant → ℕ → Bool
closes_soon none now limit = true
closes_soon (some end) now limit = ltb end (now + hours limit)

abbrev pub is_side : Outcome → Bool
is_side yes = true
is_side no = true
is_side half = false
is_side unknown = false

unfoldable pub book_of : Outcome → List (Outcome × SideBook) → Option SideBook
book_of side [] = none
book_of side ((key, book) ∷ books) = if same_outcome key side then some book else book_of side books

-- `set(books) == {"YES", "NO"}`
unfoldable pub both_books : List (Outcome × SideBook) → Bool
unfolding book_of
both_books books =
    all (λ (entry : Outcome × SideBook). is_side entry.0) books
    && (is_some (book_of yes books) && is_some (book_of no books))

-- Why a book cannot be used, if it cannot.
unfoldable pub book_refusal : Instant → ℕ → SideBook → Option Reason
book_refusal now max_age book =
    if ltb (book.fetched_at + seconds max_age) now || ltb now book.fetched_at
    then some stale_book
    else if book.fees_enabled && not (is_some (fee_rate book.fee_schedule))
    then some no_fee_rate
    else none

unfoldable pub books_refusal : Instant → ℕ → List (Outcome × SideBook) → Option Reason
unfolding book_refusal
books_refusal now max_age [] = none
books_refusal now max_age ((key, book) ∷ books) = elim (book_refusal now max_age book) [
  | some reason ↦ some reason
  | none ↦ books_refusal now max_age books
]

-- `_gate`
unfoldable pub gate : PolicyInputs → PolicyParams → Option Reason
unfolding below_confidence closes_soon both_books books_refusal
gate inputs params =
    let forecast = inputs.forecast in
    if forecast.abstained
    then some forecast_abstained
    else if not (str_eq forecast.rules_hash inputs.current_rules_hash)
    then some rules_changed
    else if not inputs.eligible
    then some eligibility_lost
    else if inputs.resolution_started
    then some resolution_begun
    else if inputs.already_traded
    then some already_held
    else if below_confidence forecast.confidence (confidence_rank params.min_confidence)
    then some low_confidence
    else if closes_soon forecast.end_date inputs.now params.min_hours_to_close
    then some closing_soon
    else if not (both_books inputs.books)
    then some no_book
    else books_refusal inputs.now params.max_book_age_seconds inputs.books
