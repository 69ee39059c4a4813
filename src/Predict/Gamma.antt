-- ===== src/Predict/Gamma.antt =====
-- predict_agent/gamma.py: the taker fee of a market. The JSON object of a fee schedule is
-- represented by what `fee_rate` reads of it.
use japan_agent.Base.{Bool, not, ◌&&◌, ◌||◌, Option, none, some, if◌then◌else◌}
use japan_agent.Base.Decimal.{Decimal, dec, lt, le}

-- What `Decimal(str(value))` gives for a JSON value.
pub data JsonDecimal : Type 0 where
  unreadable not_finite : JsonDecimal
  finite : Decimal → JsonDecimal

-- `schedule.get("exponent") == 1`, `schedule.get("takerOnly") is True` and the rate.
pub record FeeSchedule : Type 0 where
  pub exponent_is_one : Bool
  pub taker_only : Bool
  pub rate : JsonDecimal

-- 0 <= rate < 1
unfoldable pub rate_in_range : JsonDecimal → Option Decimal
rate_in_range unreadable = none
rate_in_range not_finite = none
rate_in_range (finite rate) =
    if not (le (dec 0 0) rate && lt rate (dec 1 0)) then none else some rate

-- No schedule stands for what is no JSON object.
unfoldable pub fee_rate : Option FeeSchedule → Option Decimal
unfolding rate_in_range
fee_rate none = none
fee_rate (some schedule) =
    if not schedule.exponent_is_one || not schedule.taker_only
    then none
    else rate_in_range schedule.rate
