-- ===== src/Risk/Tests.antt =====
-- Concrete orders through the risk engine.
use japan_agent.Base.{◌-◌, ◌≡◌, refl, false, none, some, [], ◌∷◌, ok, err, arith, ◌↔◌}
use japan_agent.Base.Decimal.{dec, add, sub, mul, absolute, le, min_of, div, quantize}
use japan_agent.Base.Decimal.Order.{Le, Lt, IsPositive}
use japan_agent.Base.Text.{upper_is}
use japan_agent.Time.{aware, hours, monday_of}
use japan_agent.Models.Enums.{buy, sell}
use japan_agent.Models.Portfolio.{
  InstrumentRule, ResearchDecision, nav_gbp, position, find_position,
}
use japan_agent.Models.Ticket.{post_init}
use japan_agent.Risk.Samples.{noon, fund, quote, purse, bought}
use japan_agent.Risk.Policy.{
  rejected, default_policy, violations, is_cash_type, trades_this_week, fraction_cap, absolute_cap,
  missing_price,
}
use japan_agent.Risk.Build.{
  BuildRequest, build, instrument_checks, snapshot_checks, request_checks, projected, size_order,
  order_checks, ticket_of,
}
use japan_agent.Risk.Build.Limits.{WithinCap, build-caps, build-cover}
use japan_agent.Risk.Build.Request.{IsFresh, build-IsFresh}
use japan_agent.Risk.Build.Total.{IsExpected, build-IsExpected}
use japan_agent.Risk.Validate.{
  validate_execution, order_value, position_after, execution_checks, listing_checks, cap_checks,
}
use japan_agent.Risk.Validate.Permits.{Permits, validate_execution_iff}

abbrev purchase : ResearchDecision
purchase = record {
  thesis = "growth";
  evidence = "[PRICE:JPN_EQ] price" ∷ [];
  action = buy;
  instrument = "JPN_EQ";
  target_weight = dec 35 2;
  confidence = dec 6 1;
  invalidation_condition = "none";
  research_run_id = none;
}

abbrev request : BuildRequest
request = record {
  decision = purchase;
  instrument = some fund;
  snapshot = some quote;
  portfolio = purse;
  submitted_trade_times = aware (noon - hours 2) ∷ [];
  duplicate_open = false;
  now = aware noon;
}

-- 15 pounds at 19.50 are 0.7692 shares, rounded down.
built : build default_policy "p1" request ≡ ok bought
unfolding build request_checks instrument_checks snapshot_checks violations is_cash_type upper_is
    trades_this_week monday_of le nav_gbp add position find_position size_order mul sub absolute div
    quantize projected order_checks fraction_cap absolute_cap min_of ticket_of post_init
built = refl

build-caps_example :
    let after = projected buy (position purse "JPN_EQ").market_value_gbp (dec 1500 2) in
    Le after (mul (nav_gbp purse) (fraction_cap default_policy fund))
    × WithinCap after (absolute_cap default_policy fund)
    × Le (dec 0 0) after
build-caps_example = build-caps default_policy "p1" request built fund refl

unit-IsPositive : IsPositive default_policy.quantity_places
unfolding Lt
unit-IsPositive = omega arith

build-cover_example :
    (buy ≡ buy → Le (dec 5 0) (sub (dec 80 0) (dec 1500 2)))
    × (buy ≡ sell → Le (absolute (dec 7692 4)) (position purse "JPN_EQ").quantity)
build-cover_example = build-cover default_policy "p1" request built unit-IsPositive

build-IsFresh_example : IsFresh default_policy request bought
build-IsFresh_example = build-IsFresh default_policy "p1" request built

abbrev unpriced : BuildRequest
unpriced = record request { snapshot = none }

blocked : build default_policy "p2" unpriced ≡ err (rejected (missing_price ∷ []))
unfolding build request_checks instrument_checks snapshot_checks violations is_cash_type upper_is
    trades_this_week monday_of
blocked = refl

build-IsExpected_example : IsExpected (rejected (missing_price ∷ []))
build-IsExpected_example =
    build-IsExpected default_policy "p2" unpriced (rejected (missing_price ∷ [])) unit-IsPositive
      (omega arith) blocked

valued : order_value bought (dec 20 0) ≡ ok (dec 1538 2)
unfolding order_value mul absolute quantize
valued = refl

validate_execution_iff_example :
    (validate_execution default_policy bought (some fund) purse (dec 20 0) [] (aware noon) ≡ ok tt)
    ↔ ((rule : InstrumentRule) × (some fund ≡ some rule)
        × Permits default_policy bought rule purse (dec 1538 2) noon [])
validate_execution_iff_example =
    validate_execution_iff default_policy bought (some fund) purse (dec 20 0) (dec 1538 2) [] []
      (aware noon) noon valued refl refl

passes :
    validate_execution default_policy bought (some fund) purse (dec 20 0) [] (aware noon) ≡ ok tt
unfolding validate_execution order_value mul absolute quantize execution_checks listing_checks
    cap_checks violations is_cash_type upper_is trades_this_week monday_of nav_gbp add le position
    find_position projected position_after fraction_cap absolute_cap min_of sub
passes = refl
