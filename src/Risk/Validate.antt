-- ===== src/Risk/Validate.antt =====
-- ProposalBuilder.validate_execution of japan_agent/risk/engine.py.
pub mod Permits
use japan_agent.Base.{
  ℕ, ◌≡◌, Bool, true, false, ◌&&◌, not, Option, none, some, List, [], ◌∷◌, ◌++◌, String, str_eq,
  Result, ok, err, ◌>>=◌, ◌>>◌, map_err, if◌then◌else◌, leb,
}
use japan_agent.Base.Decimal.{Decimal, dec, sub, mul, absolute, lt, le, quantize, round_half_even}
use japan_agent.Time.{Instant, Datetime, ensure_utc}
use japan_agent.Models.Enums.{is_buy, is_sell}
use japan_agent.Models.Portfolio.{InstrumentRule, Portfolio, nav_gbp, position}
use japan_agent.Models.Ticket.{TradeTicket}
use japan_agent.Risk.Policy.{
  RiskPolicy, Check, violations, not_whitelisted, type_blocked, weekly_trade_limit, nav_invalid,
  insufficient_shares, position_limit, absolute_position_limit, cash_floor, negative_position,
  RiskError, bad_time, bad_decimal, raise_any, is_cash_type, all_utc, trades_this_week,
  fraction_cap, absolute_cap, exceeds,
}
use japan_agent.Risk.Build.{projected}

-- `instrument is None or instrument.ticker != ticket.ticker`, else the type
unfoldable pub listing_checks : TradeTicket → Option InstrumentRule → List Check
listing_checks t none = (true, not_whitelisted) ∷ []
listing_checks t (some rule) =
    (not (str_eq rule.ticker t.ticker), not_whitelisted)
    ∷ (str_eq rule.ticker t.ticker && not (is_cash_type rule.instrument_type), type_blocked)
    ∷ []

-- The caps are checked if there is an instrument and the NAV is positive.
unfoldable pub cap_checks : RiskPolicy → Option InstrumentRule → Decimal → Decimal → List Check
cap_checks policy none nav value = []
cap_checks policy (some rule) nav value =
    (lt (dec 0 0) nav && lt (mul nav (fraction_cap policy rule)) value, position_limit)
    ∷ (lt (dec 0 0) nav && exceeds value (absolute_cap policy rule), absolute_position_limit)
    ∷ []

-- The position after the order, at the fresh price.
unfoldable pub position_after : TradeTicket → Portfolio → Decimal → Decimal
position_after t portfolio value =
    projected t.side (position portfolio t.ticker).market_value_gbp value

unfoldable pub execution_checks :
    RiskPolicy
    → TradeTicket
    → Option InstrumentRule
    → Portfolio
    → Decimal
    → Instant
    → List Instant
    → List Check
execution_checks policy t instrument portfolio value now times =
    listing_checks t instrument
    ++ ((le (nav_gbp portfolio) (dec 0 0), nav_invalid)
        ∷ (leb policy.max_trades_per_week (trades_this_week now times), weekly_trade_limit)
        ∷ (is_buy t.side && lt (sub portfolio.cash_gbp value) policy.cash_floor_gbp, cash_floor)
        ∷ (
          is_sell t.side && lt (position portfolio t.ticker).quantity (absolute t.quantity),
          insufficient_shares,
        )
        ∷ (lt (position_after t portfolio value) (dec 0 0), negative_position)
        ∷ cap_checks policy instrument (nav_gbp portfolio) (position_after t portfolio value))

-- `(abs(ticket.quantity) * current_price_gbp).quantize(Decimal("0.01"))`
unfoldable pub order_value : TradeTicket → Decimal → Result RiskError Decimal
order_value t price =
    map_err bad_decimal (quantize (mul (absolute t.quantity) price) 2 round_half_even)

unfoldable pub validate_execution :
    RiskPolicy
    → TradeTicket
    → Option InstrumentRule
    → Portfolio
    → Decimal
    → List Datetime
    → Datetime
    → Result RiskError Unit
validate_execution policy t instrument portfolio price submitted_trade_times now = do
  value ← order_value t price
  instant ← map_err bad_time (ensure_utc now)
  times ← map_err bad_time (all_utc submitted_trade_times)
  raise_any (violations (execution_checks policy t instrument portfolio value instant times))
