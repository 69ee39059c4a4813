-- ===== src/Risk/Build.antt =====
-- ProposalBuilder.build of japan_agent/risk/engine.py.
pub mod Limits
pub mod Request
pub mod Sized
pub mod Total
pub mod Accepted
use japan_agent.Base.{
  ℕ, ◌+◌, ◌≡◌, refl, Bool, true, false, ◌&&◌, ◌||◌, not, Option, none, some, List, [], ◌∷◌, ◌++◌,
  String, str_eq, Result, ok, err, ◌>>=◌, ◌>>◌, raise_if, map_err, if◌then◌else◌, ltb, leb,
}
use japan_agent.Base.Decimal.{
  Decimal, dec, add, sub, mul, neg, absolute, lt, le, div, quantize, round_half_even, round_down,
  DecimalError,
}
use japan_agent.Time.{Instant, Datetime, ensure_utc, TimeError}
use japan_agent.Models.Enums.{Action, is_buy, is_sell, is_hold}
use japan_agent.Models.Portfolio.{
  InstrumentRule, PriceSnapshot, Portfolio, Position, ResearchDecision, nav_gbp, position,
}
use japan_agent.Models.Ticket.{TradeTicket, post_init}
use japan_agent.Risk.Policy.{
  RiskPolicy, Check, violations, hold_decision, not_whitelisted, type_blocked, missing_price,
  price_ticker, price_invalid, price_future, price_stale, weekly_trade_limit, duplicate_open,
  nav_invalid, action_target_mismatch, order_too_small, insufficient_shares, position_limit,
  absolute_position_limit, cash_floor, negative_position, RiskError, rejected, bad_time,
  bad_decimal, bad_ticket, assertion, raise_any, is_cash_type, all_utc, trades_this_week,
  fraction_cap, absolute_cap, exceeds,
}

-- The keyword arguments of `build`.
pub record BuildRequest : Type 0 where
  pub decision : ResearchDecision
  pub instrument : Option InstrumentRule
  pub snapshot : Option PriceSnapshot
  pub portfolio : Portfolio
  pub submitted_trade_times : List Datetime
  pub duplicate_open : Bool
  pub now : Datetime

unfoldable pub instrument_checks : Option InstrumentRule → List Check
instrument_checks none = (true, not_whitelisted) ∷ []
instrument_checks (some rule) = (not (is_cash_type rule.instrument_type), type_blocked) ∷ []

-- The instant of the snapshot, or a naive timestamp's error; no snapshot has no instant.
abbrev pub snapshot_time : Option PriceSnapshot → Result TimeError Instant
snapshot_time none = ok 0
snapshot_time (some s) = ensure_utc s.observed_at

-- The second test is an `elif`.
unfoldable pub snapshot_checks :
    RiskPolicy → String → Instant → Option PriceSnapshot → Instant → List Check
snapshot_checks policy instrument now none observed = (true, missing_price) ∷ []
snapshot_checks policy instrument now (some s) observed =
    (not (str_eq s.ticker instrument), price_ticker)
    ∷ (le s.price_gbp (dec 0 0) || le s.native_price (dec 0 0), price_invalid)
    ∷ (ltb now observed, price_future)
    ∷ (not (ltb now observed) && ltb (observed + policy.max_snapshot_age) now, price_stale)
    ∷ []

-- The checks before the first `raise RiskRejected`.
unfoldable pub request_checks :
    RiskPolicy → BuildRequest → Instant → Instant → List Instant → List Check
request_checks policy r now observed times =
    (is_hold r.decision.action, hold_decision)
    ∷ (instrument_checks r.instrument
        ++ (snapshot_checks policy r.decision.instrument now r.snapshot observed
            ++ (leb policy.max_trades_per_week (trades_this_week now times), weekly_trade_limit)
              ∷ (r.duplicate_open, duplicate_open)
              ∷ []))

-- The order that a decision asks for, before its checks.
pub record Sizing : Type 0 where
  pub delta_value : Decimal
  pub absolute_quantity : Decimal
  pub estimated_value : Decimal
  pub projected_value : Decimal

-- `current + value if BUY else current - value`
unfoldable pub projected : Action → Decimal → Decimal → Decimal
projected action current value = if is_buy action then add current value else sub current value

unfoldable pub size_order :
    RiskPolicy → ResearchDecision → Position → Decimal → Decimal → Result DecimalError Sizing
size_order policy d current nav price = do
  desired_value ← quantize (mul d.target_weight nav) 2 round_half_even
  let delta = sub desired_value current.market_value_gbp
  shares ← div (absolute delta) price
  quantity ← quantize shares policy.quantity_places.places round_down
  value ← quantize (mul quantity price) 2 round_half_even
  ok (record {
    delta_value = delta;
    absolute_quantity = quantity;
    estimated_value = value;
    projected_value = projected d.action current.market_value_gbp value;
  })

-- The checks on the order, before the second `raise RiskRejected`.
unfoldable pub order_checks : RiskPolicy → Action → InstrumentRule → Portfolio → Sizing → List Check
order_checks policy action rule portfolio s =
    (is_buy action && le s.delta_value (dec 0 0), action_target_mismatch)
    ∷ (is_sell action && le (dec 0 0) s.delta_value, action_target_mismatch)
    ∷ (lt s.absolute_quantity policy.quantity_places, order_too_small)
    ∷ (
      is_sell action && lt (position portfolio rule.ticker).quantity s.absolute_quantity,
      insufficient_shares,
    )
    ∷ (lt (mul (nav_gbp portfolio) (fraction_cap policy rule)) s.projected_value, position_limit)
    ∷ (exceeds s.projected_value (absolute_cap policy rule), absolute_position_limit)
    ∷ (
      is_buy action && lt (sub portfolio.cash_gbp s.estimated_value) policy.cash_floor_gbp,
      cash_floor,
    )
    ∷ (lt s.projected_value (dec 0 0), negative_position)
    ∷ []

-- The ticket that is returned; `proposal_id` is the fresh uuid.
unfoldable pub ticket_of :
    RiskPolicy
    → String
    → BuildRequest
    → InstrumentRule
    → PriceSnapshot
    → Instant
    → Sizing
    → TradeTicket
ticket_of policy proposal_id r rule s now sizing = record {
  proposal_id = proposal_id;
  created_at = now;
  expires_at = now + policy.approval_ttl;
  ticker = rule.ticker;
  side = r.decision.action;
  quantity =
      if is_buy r.decision.action then sizing.absolute_quantity else neg sizing.absolute_quantity;
  reference_price_gbp = s.price_gbp;
  estimated_value_gbp = sizing.estimated_value;
  target_weight = r.decision.target_weight;
  confidence = r.decision.confidence;
  max_price_deviation_fraction = policy.max_price_deviation_fraction;
  thesis = r.decision.thesis;
  evidence = r.decision.evidence;
  invalidation_condition = r.decision.invalidation_condition;
  snapshot_observed_at = s.observed_at;
}

-- `assert instrument is not None and snapshot is not None`
abbrev pub asserted : {A : Type 0} → Option A → Result RiskError A
asserted none = err assertion
asserted (some a) = ok a

unfoldable pub build : RiskPolicy → String → BuildRequest → Result RiskError TradeTicket
build policy proposal_id r = do
  now ← map_err bad_time (ensure_utc r.now)
  observed ← map_err bad_time (snapshot_time r.snapshot)
  times ← map_err bad_time (all_utc r.submitted_trade_times)
  raise_any (violations (request_checks policy r now observed times))
  rule ← asserted r.instrument
  s ← asserted r.snapshot
  raise_if (le (nav_gbp r.portfolio) (dec 0 0)) (rejected (nav_invalid ∷ []))
  sizing ← map_err bad_decimal (
      size_order policy r.decision (position r.portfolio rule.ticker) (nav_gbp r.portfolio)
        s.price_gbp)
  raise_any (violations (order_checks policy r.decision.action rule r.portfolio sizing))
  map_err bad_ticket (post_init (ticket_of policy proposal_id r rule s now sizing))
