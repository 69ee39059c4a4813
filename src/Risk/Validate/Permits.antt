-- ===== src/Risk/Validate/Permits.antt =====
-- ProposalBuilder.validate_execution passes exactly the orders that the policy permits.
use japan_agent.Base.{
  not-true, ◌≡◌, ◌↔◌, refl, sym, ◌<◌, Bool, true, false, not, ◌&&◌, Option, some, none, List, ok,
  arith, str_eq_iff, leb→lt, lt→leb, ap,
}
use mathlib.Core.Bool.{false≢true}
use mathlib.Core.Option.{some-injective}
use japan_agent.Base.Decimal.{Decimal, dec, sub, mul, absolute}
use japan_agent.Base.Decimal.Order.{Le, IsPositive, lt→Le, Le→lt, le→Lt, Lt→le, Lt→lt}
use japan_agent.Time.{Instant, Datetime, ensure_utc}
use japan_agent.Models.Enums.{Action, buy, sell, is_buy, is_sell}
use japan_agent.Models.Portfolio.{InstrumentRule, Portfolio, nav_gbp, position}
use japan_agent.Models.Ticket.{TradeTicket}
use japan_agent.Risk.Policy.{
  RiskPolicy, is_cash_type, trades_this_week, fraction_cap, absolute_cap, all_utc, raise_any-eq-ok,
}
use japan_agent.Risk.Checks.{Passes, violations-Passes, Passes-violations}
use japan_agent.Risk.Build.Limits.{WithinCap, exceeds→WithinCap, WithinCap→exceeds}
use japan_agent.Risk.Validate.{
  listing_checks, cap_checks, position_after, execution_checks, order_value, validate_execution,
}

-- What the policy asks of an order of the given value, on the fresh portfolio.
pub record Permits (policy : RiskPolicy) (t : TradeTicket) (rule : InstrumentRule) (p : Portfolio)
    (value : Decimal) (now : Instant) (times : List Instant) : Type 0 where
  pub same_ticker : rule.ticker ≡ t.ticker
  pub cash_type : is_cash_type rule.instrument_type ≡ true
  pub nav_positive : IsPositive (nav_gbp p)
  pub below_limit : trades_this_week now times < policy.max_trades_per_week
  pub floor : t.side ≡ buy → Le policy.cash_floor_gbp (sub p.cash_gbp value)
  pub held : t.side ≡ sell → Le (absolute t.quantity) (position p t.ticker).quantity
  pub nonnegative : Le (dec 0 0) (position_after t p value)
  pub fraction : Le (position_after t p value) (mul (nav_gbp p) (fraction_cap policy rule))
  pub capped : WithinCap (position_after t p value) (absolute_cap policy rule)

when_buy : (a : Action) (b : Bool) → is_buy a && b ≡ false → a ≡ buy → b ≡ false
when_buy a b h e = ground arith

when_sell : (a : Action) (b : Bool) → is_sell a && b ≡ false → a ≡ sell → b ≡ false
when_sell a b h e = ground arith

buy_when : (a : Action) (b : Bool) → (a ≡ buy → b ≡ false) → is_buy a && b ≡ false
buy_when buy b h = h refl
buy_when _ b h = refl

sell_when : (a : Action) (b : Bool) → (a ≡ sell → b ≡ false) → is_sell a && b ≡ false
sell_when sell b h = h refl
sell_when _ b h = refl

and_true : (a b : Bool) → a ≡ true → a && b ≡ false → b ≡ false
and_true a b e h = ground arith

and_false : (a b : Bool) → b ≡ false → a && b ≡ false
and_false a b e = ground arith

module _ (policy : RiskPolicy) (t : TradeTicket) (p : Portfolio) (value : Decimal) (now : Instant)
    (times : List Instant) where
  Passes-Permits :
      (rule : InstrumentRule)
      → Passes (execution_checks policy t (some rule) p value now times)
      → Permits policy t rule p value now times
  unfolding execution_checks listing_checks cap_checks
  Passes-Permits rule
        (listing, (typed, (nav, (weekly, (floor, (held, (negative, (fraction, (capped, _))))))))) =
      let same = not-true _ listing in
      let positive = le→Lt _ _ nav in
      record {
        same_ticker = (str_eq_iff _ _).0 same;
        cash_type = not-true _ (and_true _ _ same typed);
        nav_positive = positive;
        below_limit = leb→lt _ _ weekly;
        floor = λ side. lt→Le _ _ (when_buy t.side _ floor side);
        held = λ side. lt→Le _ _ (when_sell t.side _ held side);
        nonnegative = lt→Le _ _ negative;
        fraction = lt→Le _ _ (and_true _ _ (Lt→lt _ _ positive) fraction);
        capped = exceeds→WithinCap _ _ (and_true _ _ (Lt→lt _ _ positive) capped);
      }

  Permits-Passes :
      (rule : InstrumentRule)
      → Permits policy t rule p value now times
      → Passes (execution_checks policy t (some rule) p value now times)
  unfolding execution_checks listing_checks cap_checks
  Permits-Passes rule h = (
    ap not ((str_eq_iff rule.ticker t.ticker).1 h.same_ticker),
    (
      and_false _ _ (ap not h.cash_type),
      (
        Lt→le (nav_gbp p) (dec 0 0) h.nav_positive,
        (
          lt→leb _ _ h.below_limit,
          (
            buy_when t.side _ (λ side. Le→lt _ _ (h.floor side)),
            (
              sell_when t.side _ (λ side. Le→lt _ _ (h.held side)),
              (
                Le→lt _ _ h.nonnegative,
                (
                  and_false _ _ (Le→lt _ _ h.fraction),
                  (and_false _ _ (WithinCap→exceeds _ _ h.capped), tt),
                ),
              ),
            ),
          ),
        ),
      ),
    ),
  )

  unlisted : Passes (execution_checks policy t none p value now times) → ⊥
  unfolding execution_checks listing_checks
  unlisted h = false≢true (sym h.0)

  execution_checks_iff :
      (instrument : Option InstrumentRule)
      → Passes (execution_checks policy t instrument p value now times) ↔ (
          (rule : InstrumentRule) × (instrument ≡ some rule)
          × Permits policy t rule p value now times)
  execution_checks_iff none = (λ h. absurd (unlisted h), λ (rule, e, h). cc)
  execution_checks_iff (some rule) = (
    λ h. (rule, refl, Passes-Permits rule h),
    λ (rule', e, h). Permits-Passes rule (rw (some-injective rule rule' e) h),
  )

-- On timestamps with a zone, and where the value of the order at the fresh price can be computed,
-- the fresh portfolio passes exactly if the ticket's instrument is listed and the policy permits
-- the order: type, positive NAV, weekly number, cash floor of a purchase, shares of a sale, and a
-- position between 0 and both caps.
pub validate_execution_iff :
    (policy : RiskPolicy) (t : TradeTicket) (instrument : Option InstrumentRule) (p : Portfolio)
    (price value : Decimal) (submitted : List Datetime) (times : List Instant) (now : Datetime)
    (instant : Instant)
    → order_value t price ≡ ok value
    → ensure_utc now ≡ ok instant
    → all_utc submitted ≡ ok times
    → (validate_execution policy t instrument p price submitted now ≡ ok tt) ↔ (
        (rule : InstrumentRule) × (instrument ≡ some rule)
        × Permits policy t rule p value instant times)
unfolding validate_execution
validate_execution_iff policy t instrument p price value submitted times now instant ev en et =
    let checks = execution_checks_iff policy t p value instant times instrument in
    rw (ev, en, et)
      (
        λ h. checks.0 (violations-Passes _ (raise_any-eq-ok _ h)),
        λ h. rw (Passes-violations _ (checks.1 h)),
      )
