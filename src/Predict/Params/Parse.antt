-- ===== src/Predict/Params/Parse.antt =====
-- predict_agent/policy_params.py: `parse_policy` and `policy_from_artifact`, on what json.loads
-- gives. Texts are the code points of their characters.
use japan_agent.Base.{
  ℕ, suc, Bool, not, ◌&&◌, ◌||◌, Option, none, some, is_some, List, [], ◌∷◌, String, str_eq, Result,
  ok, err, ◌>>=◌, if◌then◌else◌, any, all,
}
use japan_agent.Base.Int.{ℤ, pos}
use japan_agent.Base.Text.{codes, same_codes}
use japan_agent.Base.Table.{Table, lookup}
use japan_agent.Base.Decimal.{Decimal, dec, lt, le}
use japan_agent.Base.Decimal.Format.{Text, Parsed, unreadable, not_finite, finite, of_text}
use japan_agent.Predict.Params.{
  Probability, bounds, mid, Confidence, low, medium, high, PolicyParams,
}

-- A JSON value that is no object: a text, an integer, or anything else.
pub data Scalar : Type 0 where
  text : Text → Scalar
  integer : ℤ → Scalar
  other : Scalar

-- A JSON value; an object in an object in an object is anything else.
pub data Value : Type 0 where
  scalar : Scalar → Value
  object : Table Scalar → Value

-- What json.loads gives: an error, a value that is no object, or the fields of an object.
pub data PolicyJson : Type 0 where
  not_json not_object : PolicyJson
  fields : Table Value → PolicyJson

-- The ConfigErrors.
pub data ConfigError : Type 0 where
  no_json no_object bad_source bad_keys bad_caps bad_decimal bad_bankroll : ConfigError
  bad_min_edge bad_slippage bad_min_confidence bad_fraction bad_integer : ConfigError

unfoldable finite_decimal : Parsed → Result ConfigError Decimal
finite_decimal unreadable = err bad_decimal
finite_decimal not_finite = err bad_decimal
finite_decimal (finite number) = ok number

-- `_decimal`, of the value that the key has
unfoldable pub decimal_field : Option Scalar → Result ConfigError Decimal
unfolding finite_decimal
decimal_field (some (text cs)) = finite_decimal (of_text cs)
decimal_field _ = err bad_decimal

-- `_fraction`
unfoldable pub fraction_field : Option Scalar → Result ConfigError Decimal
unfolding decimal_field
fraction_field value = decimal_field value >>= λ number.
    if not (lt (dec 0 0) number && le number (dec 1 0)) then err bad_fraction else ok number

-- `_positive_int`
unfoldable pub positive_int : Option Scalar → Result ConfigError ℕ
positive_int (some (integer (pos (suc n)))) = ok (suc n)
positive_int _ = err bad_integer

-- The value of a key, where it is no object.
unfoldable pub scalar_of : Option Value → Option Scalar
scalar_of (some (scalar value)) = some value
scalar_of _ = none

abbrev pub policy_keys : List String
policy_keys =
    "starting_bankroll" ∷ "min_edge" ∷ "kelly_fraction" ∷ "max_slippage" ∷ "min_hours_to_close"
    ∷ "max_book_age_seconds" ∷ "min_confidence" ∷ "caps" ∷ []

abbrev pub cap_keys : List String
cap_keys = "market" ∷ "event" ∷ "category" ∷ "total_open" ∷ []

-- The keys of an object, but those that may be left out, are exactly the keys.
unfoldable pub has_keys : {A : Type 0} → List String → List String → Table A → Bool
has_keys {A} optional keys row =
    all (λ (entry : String × A). any (str_eq entry.0) optional || any (str_eq entry.0) keys) row
    && all (λ key. is_some (lookup key row)) keys

unfoldable pub source_of : Option Scalar → Option Probability
source_of (some (text cs)) =
    if same_codes cs (codes "bounds")
    then some bounds
    else if same_codes cs (codes "mid")
    then some mid
    else none
source_of _ = none

unfoldable pub confidence_field : Option Scalar → Result ConfigError Confidence
confidence_field (some (text cs)) =
    if same_codes cs (codes "low")
    then ok low
    else if same_codes cs (codes "medium")
    then ok medium
    else if same_codes cs (codes "high")
    then ok high
    else err bad_min_confidence
confidence_field _ = err bad_min_confidence

-- `raw["caps"]`, with exactly its keys
unfoldable pub caps_field : Option Value → Result ConfigError (Table Scalar)
unfolding has_keys
caps_field (some (object caps)) = if not (has_keys [] cap_keys caps) then err bad_caps else ok caps
caps_field _ = err bad_caps

abbrev pub refuse_unless : Bool → ConfigError → Result ConfigError (Unit {0})
refuse_unless b e = if not b then err e else ok tt

-- The fields of an object that has the keys.
unfoldable pub read_policy :
    Probability → Table Value → Table Scalar → Result ConfigError PolicyParams
unfolding decimal_field fraction_field positive_int scalar_of confidence_field
read_policy source raw caps =
    let at = λ (key : String). scalar_of (lookup key raw) in
    decimal_field (at "starting_bankroll") >>= λ bankroll.
    refuse_unless (lt (dec 0 0) bankroll) bad_bankroll >>= λ _.
    decimal_field (at "min_edge") >>= λ min_edge.
    refuse_unless (lt (dec 0 0) min_edge && lt min_edge (dec 1 0)) bad_min_edge >>= λ _.
    decimal_field (at "max_slippage") >>= λ slippage.
    refuse_unless (le (dec 0 0) slippage && lt slippage (dec 1 0)) bad_slippage >>= λ _.
    confidence_field (at "min_confidence") >>= λ confidence.
    fraction_field (at "kelly_fraction") >>= λ kelly.
    fraction_field (lookup "market" caps) >>= λ market.
    fraction_field (lookup "event" caps) >>= λ event.
    fraction_field (lookup "category" caps) >>= λ category.
    fraction_field (lookup "total_open" caps) >>= λ total.
    positive_int (at "min_hours_to_close") >>= λ hours.
    positive_int (at "max_book_age_seconds") >>= λ age. ok (record {
      probability = source;
      starting_bankroll = bankroll;
      min_edge = min_edge;
      min_confidence = confidence;
      kelly_fraction = kelly;
      cap_market = market;
      cap_event = event;
      cap_category = category;
      cap_total_open = total;
      max_slippage = slippage;
      min_hours_to_close = hours;
      max_book_age_seconds = age;
    })

-- `parse_policy`, for an object
unfoldable pub parse_policy : Option Probability → Table Value → Result ConfigError PolicyParams
unfolding has_keys caps_field read_policy
parse_policy none raw = err bad_source
parse_policy (some source) raw =
    if not (has_keys ("probability" ∷ []) policy_keys raw)
    then err bad_keys
    else caps_field (lookup "caps" raw) >>= λ caps. read_policy source raw caps

unfoldable pub policy_from_artifact : PolicyJson → Result ConfigError PolicyParams
unfolding parse_policy source_of scalar_of
policy_from_artifact not_json = err no_json
policy_from_artifact not_object = err no_object
policy_from_artifact (fields raw) =
    parse_policy (source_of (scalar_of (lookup "probability" raw))) raw
