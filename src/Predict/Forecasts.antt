-- ===== src/Predict/Forecasts.antt =====
-- predict_agent/forecasts.py: what a forecast must satisfy.
pub mod Valid
pub mod Attempts
pub mod Record
pub mod Write
pub mod Recorded
pub mod Baseline
pub mod Attach
pub mod Timely
pub mod Resume
use japan_agent.Base.{
  ℕ, zero, suc, Bool, true, false, not, ◌&&◌, ◌||◌, Option, none, some, is_some, List, [], ◌∷◌,
  String, str_eq, Result, ok, err, ◌>>=◌, if◌then◌else◌, leb, ◌==◌,
}
use japan_agent.Base.Text.{codes}
use japan_agent.Base.Decimal.{Decimal, dec, lt, le}
use japan_agent.Predict.Params.{confidence_of}
use japan_agent.Predict.Tickets.{refuse_if}
use japan_agent.Predict.Ledger.{
  ForecastRecord, ForecastBody, LedgerError, bad_digest, bad_body, bad_abstention, bad_probability,
  bad_confidence, bad_base_rate, bad_cost,
}

-- The characters of [0-9a-f].
abbrev pub is_hex : ℕ → Bool
is_hex c = (leb b'0' c && leb c b'9') || (leb b'a' c && leb c b'f')

-- n hexadecimal digits; `$` lets one line break follow.
unfoldable pub hex_digits : ℕ → List ℕ → Bool
hex_digits zero [] = true
hex_digits zero (c ∷ []) = c == 10
hex_digits zero (c ∷ d ∷ cs) = false
hex_digits (suc n) [] = false
hex_digits (suc n) (c ∷ cs) = is_hex c && hex_digits n cs

-- `_HEX64.match(text)`
unfoldable pub is_digest : String → Bool
unfolding hex_digits
is_digest text = hex_digits 64 (codes text)

unfoldable pub body_fits : ForecastBody → Bool
body_fits b = b.evidence_is_list && (b.interpretation_is_text && b.flags_are_list)

-- `_valid_cost`
unfoldable pub valid_cost : Decimal → Result LedgerError (Unit {0})
valid_cost cost = refuse_if (lt cost (dec 0 0)) bad_cost

-- `not text`, for a text that may be missing
abbrev pub is_blank_text : Option String → Bool
is_blank_text none = true
is_blank_text (some text) = str_eq text ""

unfoldable pub valid_abstention : ForecastRecord → Result LedgerError (Unit {0})
valid_abstention r =
    if is_blank_text r.abstain_reason
    then err bad_abstention
    else refuse_if
        ((is_some r.p_low || (is_some r.p_mid || is_some r.p_high)) || is_some r.confidence)
        bad_abstention

-- P_MIN <= p <= P_MAX
abbrev pub in_range : Decimal → Bool
in_range p = le (dec 1 2) p && le p (dec 99 2)

abbrev pub known_confidence : Option String → Bool
known_confidence none = false
known_confidence (some text) = is_some (confidence_of text)

-- The checks of three probabilities.
unfoldable pub valid_probabilities :
    Option Decimal → Option Decimal → Option Decimal → Result LedgerError (Unit {0})
valid_probabilities (some low) (some middle) (some high) =
    if not (in_range low && (in_range middle && in_range high))
    then err bad_probability
    else refuse_if (not (le low middle && le middle high)) bad_probability
valid_probabilities _ _ _ = err bad_probability

unfoldable pub valid_estimate : ForecastRecord → Result LedgerError (Unit {0})
unfolding valid_probabilities
valid_estimate r = refuse_if (is_some r.abstain_reason) bad_abstention >>= λ _.
    valid_probabilities r.p_low r.p_mid r.p_high >>= λ _.
    refuse_if (not (known_confidence r.confidence)) bad_confidence >>= λ _.
    refuse_if (not (is_some r.base_rate)) bad_base_rate

unfoldable pub valid_base_rate : Option Decimal → Result LedgerError (Unit {0})
valid_base_rate none = ok tt
valid_base_rate (some rate) = refuse_if (not (le (dec 0 0) rate && le rate (dec 1 0))) bad_base_rate

unfoldable pub validate_forecast : ForecastRecord → Result LedgerError (Unit {0})
unfolding is_digest body_fits valid_abstention valid_estimate valid_base_rate valid_cost
validate_forecast r =
    refuse_if
      (not (
        is_digest r.rules_hash && (is_digest r.research_input_hash && is_digest r.transcript_hash)))
      bad_digest
    >>= λ _. refuse_if (not (body_fits r.body)) bad_body >>= λ _.
        (if r.abstained then valid_abstention r else valid_estimate r) >>= λ _.
        valid_base_rate r.base_rate >>= λ _. valid_cost r.cost_usd
