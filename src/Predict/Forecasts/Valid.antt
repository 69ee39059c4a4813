-- ===== src/Predict/Forecasts/Valid.antt =====
-- What a forecast that passes the checks satisfies.
use mathlib.Core.Bool.{false≢true}
use japan_agent.Base.{
  ◌≡◌, refl, sym, ◌∙◌, Bool, true, false, not, ◌&&◌, ◌||◌, Option, none, some, is_some, String,
  str_eq_iff, ◌≢◌, ok, >>=-eq-ok, guard-eq-ok, if◌then◌else◌, arith,
}
use japan_agent.Base.Decimal.{Decimal, dec, le}
use japan_agent.Base.Decimal.Order.{Le, le→Le, lt→Le}
use japan_agent.Predict.Params.{Confidence, confidence_of}
use japan_agent.Predict.Ledger.{ForecastRecord, LedgerError}
use japan_agent.Predict.Tickets.{refuse_if}
use japan_agent.Predict.Forecasts.{
  is_digest, body_fits, valid_cost, is_blank_text, valid_abstention, in_range, known_confidence,
  valid_probabilities, valid_estimate, valid_base_rate, validate_forecast,
}

-- The probabilities lie in order between 0.01 and 0.99.
pub record IsEstimate (low middle high : Decimal) : Type 0 where
  pub least : Le (dec 1 2) low
  pub lower : Le low middle
  pub upper : Le middle high
  pub most : Le high (dec 99 2)

-- A base rate between 0 and 1.
abbrev pub IsRate : Decimal → Type 0
IsRate rate = Le (dec 0 0) rate × Le rate (dec 1 0)

-- What a forecast that was not abstained states.
pub record IsStated (r : ForecastRecord) : Type 0 where
  pub low : Decimal
  pub middle : Decimal
  pub high : Decimal
  pub confidence : Confidence
  pub text : String
  pub rate : Decimal
  pub p_low : r.p_low ≡ some low
  pub p_mid : r.p_mid ≡ some middle
  pub p_high : r.p_high ≡ some high
  pub estimate : IsEstimate low middle high
  pub worded : r.confidence ≡ some text
  pub known : confidence_of text ≡ some confidence
  pub base_rate : r.base_rate ≡ some rate
  pub rated : IsRate rate

-- What an abstention states: a reason, and nothing else.
pub record IsAbstention (r : ForecastRecord) : Type 0 where
  pub reason : String
  pub stated : r.abstain_reason ≡ some reason
  pub not_empty : reason ≢ ""
  pub p_low : r.p_low ≡ none
  pub p_mid : r.p_mid ≡ none
  pub p_high : r.p_high ≡ none
  pub confidence : r.confidence ≡ none

refused : (b : Bool) (e : LedgerError) {u : Unit {0}} → refuse_if b e ≡ ok u → b ≡ false
refused b e h = (guard-eq-ok b e _ h).0

both : (a b : Bool) → not (a && b) ≡ false → (a ≡ true) × (b ≡ true)
both a b h = ground arith

neither : (a b : Bool) → a || b ≡ false → (a ≡ false) × (b ≡ false)
neither a b h = ground arith

not_some : {A : Type 0} (o : Option A) → is_some o ≡ false → o ≡ none
not_some none h = refl
not_some (some a) h = absurd (cc h)

valid_probabilities-IsEstimate :
    (a b c : Option Decimal) {u : Unit {0}}
    → valid_probabilities a b c ≡ ok u
    → (low : Decimal) × (middle : Decimal) × (high : Decimal) × (a ≡ some low)
      × (b ≡ some middle)
      × (c ≡ some high)
      × IsEstimate low middle high
unfolding valid_probabilities
valid_probabilities-IsEstimate (some low) (some middle) (some high) h =
    let (ranged, h1) =
      guard-eq-ok (not (in_range low && (in_range middle && in_range high))) _ _ h in
    let (first, others) = both (in_range low) (in_range middle && in_range high) ranged in
    let (lower, upper) = both (le low middle) (le middle high) (refused _ _ h1) in
    (
      low,
      middle,
      high,
      refl,
      refl,
      refl,
      record {
        least = le→Le _ _ (ground arith);
        lower = le→Le low middle lower;
        upper = le→Le middle high upper;
        most = le→Le _ _ (ground arith);
      },
    )
valid_probabilities-IsEstimate none b c h = absurd (cc h)
valid_probabilities-IsEstimate (some low) none c h = absurd (cc h)
valid_probabilities-IsEstimate (some low) (some middle) none h = absurd (cc h)

valid_base_rate-IsRate :
    (rate : Decimal) {u : Unit {0}} → valid_base_rate (some rate) ≡ ok u → IsRate rate
unfolding valid_base_rate
valid_base_rate-IsRate rate h =
    let (low, high) = both (le (dec 0 0) rate) (le rate (dec 1 0)) (refused _ _ h) in
    (le→Le (dec 0 0) rate low, le→Le rate (dec 1 0) high)

is_some-some : {A : Type 0} (o : Option A) → not (is_some o) ≡ false → (a : A) × (o ≡ some a)
is_some-some none h = absurd (cc h)
is_some-some (some a) h = (a, refl)

known_confidence-some :
    (o : Option String)
    → not (known_confidence o) ≡ false
    → (text : String) × (c : Confidence) × (o ≡ some text) × (confidence_of text ≡ some c)
known_confidence-some none h = absurd (cc h)
known_confidence-some (some text) h =
    let (c, known) = is_some-some (confidence_of text) h in (text, c, refl, known)

valid_estimate-IsStated :
    (r : ForecastRecord) {u v : Unit {0}}
    → valid_estimate r ≡ ok u
    → valid_base_rate r.base_rate ≡ ok v
    → IsStated r
unfolding valid_estimate
valid_estimate-IsStated r h k =
    let (_, _, h1) = >>=-eq-ok (refuse_if (is_some r.abstain_reason) _) _ h in
    let (_, probable, h2) = >>=-eq-ok (valid_probabilities r.p_low r.p_mid r.p_high) _ h1 in
    let (_, confident, h3) = >>=-eq-ok (refuse_if (not (known_confidence r.confidence)) _) _ h2 in
    let (low, middle, high, p_low, p_mid, p_high, estimate) =
      valid_probabilities-IsEstimate r.p_low r.p_mid r.p_high probable in
    let (text, c, worded, known) = known_confidence-some r.confidence (refused _ _ confident) in
    let (rate, based) = is_some-some r.base_rate (refused _ _ h3) in
    record {
      low = low;
      middle = middle;
      high = high;
      confidence = c;
      text = text;
      rate = rate;
      p_low = p_low;
      p_mid = p_mid;
      p_high = p_high;
      estimate = estimate;
      worded = worded;
      known = known;
      base_rate = based;
      rated = valid_base_rate-IsRate rate (rw based at k);
    }

not_blank :
    (o : Option String) → is_blank_text o ≡ false → (text : String) × (o ≡ some text) × (text ≢ "")
not_blank none h = absurd (cc h)
not_blank (some text) h = (text, refl, λ e. false≢true (sym h ∙ (str_eq_iff text "").1 e))

valid_abstention-IsAbstention :
    (r : ForecastRecord) {u : Unit {0}} → valid_abstention r ≡ ok u → IsAbstention r
unfolding valid_abstention
valid_abstention-IsAbstention r h =
    let (given, h1) = guard-eq-ok (is_blank_text r.abstain_reason) _ _ h in
    let (probable, confident) = neither _ (is_some r.confidence) (refused _ _ h1) in
    let (low, others) = neither (is_some r.p_low) (is_some r.p_mid || is_some r.p_high) probable in
    let (middle, high) = neither (is_some r.p_mid) (is_some r.p_high) others in
    let (reason, stated, not_empty) = not_blank r.abstain_reason given in
    record {
      reason = reason;
      stated = stated;
      not_empty = not_empty;
      p_low = not_some r.p_low low;
      p_mid = not_some r.p_mid middle;
      p_high = not_some r.p_high high;
      confidence = not_some r.confidence confident;
    }

-- What the checks grant.
pub record IsValid (r : ForecastRecord) : Type 0 where
  pub digests :
      (is_digest r.rules_hash ≡ true)
      × (is_digest r.research_input_hash ≡ true)
      × (is_digest r.transcript_hash ≡ true)
  pub stated : r.abstained ≡ false → IsStated r
  pub abstention : r.abstained ≡ true → IsAbstention r
  pub cost : Le (dec 0 0) r.cost_usd

-- A forecast that passes the checks has three digests and a cost of zero or more. If it was not
-- abstained, its three probabilities lie in order between 0.01 and 0.99, and it has a confidence of
-- the three and a base rate between 0 and 1. If it was, it has a reason that is not empty, and no
-- probability and no confidence.
pub validate_forecast-IsValid :
    (r : ForecastRecord) {u : Unit {0}} → validate_forecast r ≡ ok u → IsValid r
unfolding validate_forecast valid_cost
validate_forecast-IsValid r h =
    let hashes =
      is_digest r.rules_hash && (is_digest r.research_input_hash && is_digest r.transcript_hash) in
    let (_, hashed, h1) = >>=-eq-ok (refuse_if (not hashes) _) _ h in
    let (_, _, h2) = >>=-eq-ok (refuse_if (not (body_fits r.body)) _) _ h1 in
    let (_, made, h3) =
      >>=-eq-ok (if r.abstained then valid_abstention r else valid_estimate r) _ h2 in
    let (_, rated, h4) = >>=-eq-ok (valid_base_rate r.base_rate) _ h3 in
    let (first, others) = both (is_digest r.rules_hash) _ (refused _ _ hashed) in
    let (second, third) =
      both (is_digest r.research_input_hash) (is_digest r.transcript_hash) (rw others refl) in
    record {
      digests = (first, second, third);
      stated = λ e. valid_estimate-IsStated r (rw e at made) rated;
      abstention = λ e. valid_abstention-IsAbstention r (rw e at made);
      cost = lt→Le r.cost_usd (dec 0 0) (refused _ _ h4);
    }
