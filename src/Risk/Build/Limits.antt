-- ===== src/Risk/Build/Limits.antt =====
-- The order that ProposalBuilder.build accepts lies within the limits of the policy.
use japan_agent.Base.{
  ◌<◌, ◌≡◌, refl, sym, Bool, false, ◌&&◌, Option, some, none, String, Result, ok, err, >>=-eq-ok,
  arith, ap, ◌∙◌, if◌then◌else◌,
}
use mathlib.Core.Option.{some-injective}
use japan_agent.Base.Decimal.{
  Decimal, dec, lt, sub, mul, absolute, neg, quantize, div, round_down, round_half_even,
  precision_limit, magnitude,
}
use japan_agent.Base.Decimal.Order.{
  Le, lt→Le, Le→lt, IsPositive, Le-IsPositive, absolute-neg, quantize_fits,
}
use japan_agent.Time.{Instant}
use japan_agent.Models.Enums.{Action, buy, sell, is_buy, is_sell}
use japan_agent.Models.Portfolio.{
  InstrumentRule, PriceSnapshot, Portfolio, Position, ResearchDecision, nav_gbp, position,
}
use japan_agent.Models.Ticket.{TradeTicket}
use japan_agent.Risk.Policy.{RiskPolicy, fraction_cap, absolute_cap, exceeds}
use japan_agent.Risk.Checks.{Passes}
use japan_agent.Risk.Build.{
  BuildRequest, Sizing, projected, size_order, order_checks, ticket_of, build,
}
use japan_agent.Risk.Build.Accepted.{Accepted, build-Accepted}

-- The value is at most the cap, if there is one.
abbrev pub WithinCap : Decimal → Option Decimal → Type 0
WithinCap value none = Unit
WithinCap value (some cap) = Le value cap

pub exceeds→WithinCap :
    (value : Decimal) (cap : Option Decimal) → exceeds value cap ≡ false → WithinCap value cap
exceeds→WithinCap value none h = tt
exceeds→WithinCap value (some cap) h = lt→Le cap value h

pub WithinCap→exceeds :
    (value : Decimal) (cap : Option Decimal) → WithinCap value cap → exceeds value cap ≡ false
WithinCap→exceeds value none h = refl
WithinCap→exceeds value (some cap) h = Le→lt cap value h

-- What the checks on an order leave when none of them fails.
record IsOrderable (policy : RiskPolicy) (action : Action) (rule : InstrumentRule) (p : Portfolio)
    (s : Sizing) : Type 0 where
  sizable : lt s.absolute_quantity policy.quantity_places ≡ false
  held : is_sell action && lt (position p rule.ticker).quantity s.absolute_quantity ≡ false
  fraction : lt (mul (nav_gbp p) (fraction_cap policy rule)) s.projected_value ≡ false
  capped : exceeds s.projected_value (absolute_cap policy rule) ≡ false
  floor : is_buy action && lt (sub p.cash_gbp s.estimated_value) policy.cash_floor_gbp ≡ false
  nonnegative : lt s.projected_value (dec 0 0) ≡ false

Passes-IsOrderable :
    (policy : RiskPolicy) (action : Action) (rule : InstrumentRule) (p : Portfolio) (s : Sizing)
    → Passes (order_checks policy action rule p s)
    → IsOrderable policy action rule p s
unfolding order_checks
Passes-IsOrderable policy action rule p s h =
    let sizes = h.1.1 in
    let caps = sizes.1.1 in
    record {
      sizable = sizes.0;
      held = sizes.1.0;
      fraction = caps.0;
      capped = caps.1.0;
      floor = caps.1.1.0;
      nonnegative = caps.1.1.1.0;
    }

abbrev sizing_of : {E : Type 0} → Sizing → Result E Sizing → Sizing
sizing_of s (ok t) = t
sizing_of s (err _) = s

pub size_order_lem :
    (policy : RiskPolicy) (d : ResearchDecision) (current : Position) (nav price : Decimal)
    (s : Sizing)
    → size_order policy d current nav price ≡ ok s
    → (s.projected_value ≡ projected d.action current.market_value_gbp s.estimated_value)
      × (magnitude s.absolute_quantity.coefficient < precision_limit)
unfolding size_order
size_order_lem policy d current nav price s h =
    let (desired, _, h₁) = >>=-eq-ok (quantize (mul d.target_weight nav) 2 round_half_even) _ h in
    let delta = sub desired current.market_value_gbp in
    let (shares, _, h₂) = >>=-eq-ok (div (absolute delta) price) _ h₁ in
    let (quantity, rounded, h₃) =
      >>=-eq-ok (quantize shares policy.quantity_places.places round_down) _ h₂ in
    let (value, _, h₄) = >>=-eq-ok (quantize (mul quantity price) 2 round_half_even) _ h₃ in
    let same = ap (sizing_of s) h₄ in
    (
      rw (← same) refl,
      rw (← same) (quantize_fits shares policy.quantity_places.places round_down rounded),
    )

pub large_enough :
    (policy : RiskPolicy) (r : BuildRequest) (rule : InstrumentRule) (sizing : Sizing)
    → Passes (order_checks policy r.decision.action rule r.portfolio sizing)
    → lt sizing.absolute_quantity policy.quantity_places ≡ false
large_enough policy r rule sizing ordered =
    (Passes-IsOrderable policy r.decision.action rule r.portfolio sizing ordered).sizable

buy_test : (action : Action) (b : Bool) → action ≡ buy → is_buy action && b ≡ false → b ≡ false
buy_test action b e h = ground arith

sell_test : (action : Action) (b : Bool) → action ≡ sell → is_sell action && b ≡ false → b ≡ false
sell_test action b e h = ground arith

signed-sell :
    (action : Action) (q : Decimal) → action ≡ sell → (if is_buy action then q else neg q) ≡ neg q
signed-sell action q e = ground arith

-- What the limits say of the ticket that `build` makes of an order.
module _ (policy : RiskPolicy) (id : String) (r : BuildRequest) (rule : InstrumentRule)
    (s : PriceSnapshot) (now : Instant) (sizing : Sizing)
    (sized : size_order policy r.decision
        (position r.portfolio rule.ticker)
        (nav_gbp r.portfolio)
        s.price_gbp
      ≡ ok sizing)
    (o : IsOrderable policy r.decision.action rule r.portfolio sizing) where
  abbrev made : TradeTicket
  unfolding ticket_of
  made = ticket_of policy id r rule s now sizing

  sizing_facts :
      (sizing.projected_value
        ≡ projected r.decision.action
            (position r.portfolio rule.ticker).market_value_gbp
            sizing.estimated_value)
      × (magnitude sizing.absolute_quantity.coefficient < precision_limit)
  sizing_facts =
      size_order_lem policy r.decision (position r.portfolio rule.ticker) (nav_gbp r.portfolio)
        s.price_gbp sizing sized

  made_caps :
      let after =
        projected made.side
          (position r.portfolio made.ticker).market_value_gbp
          made.estimated_value_gbp in
      Le after (mul (nav_gbp r.portfolio) (fraction_cap policy rule))
      × WithinCap after (absolute_cap policy rule)
      × Le (dec 0 0) after
  unfolding ticket_of
  made_caps =
      rw (← sizing_facts.0)
        (lt→Le _ _ o.fraction, exceeds→WithinCap _ _ o.capped, lt→Le _ _ o.nonnegative)

  made_floor :
      made.side ≡ buy → Le policy.cash_floor_gbp (sub r.portfolio.cash_gbp made.estimated_value_gbp)
  unfolding ticket_of
  made_floor side = lt→Le _ _ (buy_test r.decision.action _ side o.floor)

  made_held :
      IsPositive policy.quantity_places
      → made.side ≡ sell
      → Le (absolute made.quantity) (position r.portfolio made.ticker).quantity
  unfolding ticket_of
  made_held unit side =
      rw
        (
          signed-sell r.decision.action sizing.absolute_quantity side,
          absolute-neg sizing.absolute_quantity
              (Le-IsPositive policy.quantity_places _ unit (lt→Le _ _ o.sizable)) sizing_facts.1,
        )
        (lt→Le _ _ (sell_test r.decision.action _ side o.held))

module _ (policy : RiskPolicy) (id : String) (r : BuildRequest) {t : TradeTicket}
    (built : build policy id r ≡ ok t) where
  accepted : Accepted policy id r t
  accepted = build-Accepted policy id r built

  orderable : IsOrderable policy r.decision.action accepted.rule r.portfolio accepted.sizing
  orderable = Passes-IsOrderable _ _ _ _ _ accepted.ordered

  -- The position that an accepted ticket leads to, at the value that the engine estimates, lies
  -- between 0 and the caps of the instrument that the request named: the smaller fraction of the
  -- NAV, and the absolute cap where there is one.
  pub build-caps :
      (rule : InstrumentRule)
      → r.instrument ≡ some rule
      → let after =
          projected t.side (position r.portfolio t.ticker).market_value_gbp t.estimated_value_gbp in
        Le after (mul (nav_gbp r.portfolio) (fraction_cap policy rule))
        × WithinCap after (absolute_cap policy rule)
        × Le (dec 0 0) after
  unfolding ticket_of made
  build-caps rule listed =
      rw (accepted.ticket, some-injective rule accepted.rule (sym listed ∙ accepted.listed))
        (made_caps policy id r accepted.rule accepted.snapshot accepted.now accepted.sizing
          accepted.sized orderable)

  -- Where shares have a positive unit, an accepted purchase leaves the cash floor, and an accepted
  -- sale is of no more shares than the portfolio holds.
  pub build-cover :
      IsPositive policy.quantity_places
      → (t.side ≡ buy → Le policy.cash_floor_gbp (sub r.portfolio.cash_gbp t.estimated_value_gbp))
        × (t.side ≡ sell → Le (absolute t.quantity) (position r.portfolio t.ticker).quantity)
  unfolding ticket_of made
  build-cover unit = rw accepted.ticket (
    made_floor policy id r accepted.rule accepted.snapshot accepted.now accepted.sizing
        accepted.sized orderable,
    made_held policy id r accepted.rule accepted.snapshot accepted.now accepted.sizing
        accepted.sized orderable unit,
  )
