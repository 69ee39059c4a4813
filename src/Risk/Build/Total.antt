-- ===== src/Risk/Build/Total.antt =====
-- How ProposalBuilder.build can fail.
use japan_agent.Base.{
  ◌≡◌, ◌≢◌, refl, some, ◌||◌, ◌⊎◌, inl, inr, ◌<◌, Bool, true, false, List, [], ◌∷◌, String, Result,
  ok, err, map_err, map_err-eq-ok, raise_if, ◌>>=◌, if◌then◌else◌, arith, Option-cases, sym,
}
use mathlib.Core.Bool.{false≢true}
use japan_agent.Risk.Checks.{Passes-append}
use japan_agent.Base.Decimal.{Decimal, dec, le, neg, DecimalError, precision_limit, magnitude}
use japan_agent.Base.Decimal.Order.{
  IsPositive, Lt, Lt→le, le→Lt, lt→Le, Le-IsPositive, neg-IsPositive,
}
use japan_agent.Time.{Instant, TimeError, ensure_utc}
use japan_agent.Models.Enums.{Action, buy, sell, hold, is_buy, is_hold}
use japan_agent.Models.Portfolio.{InstrumentRule, PriceSnapshot, nav_gbp, position}
use japan_agent.Models.Ticket.{TradeTicket, post_init}
use japan_agent.Risk.Policy.{
  RiskPolicy, Violation, RiskError, rejected, bad_time, bad_decimal, bad_ticket, assertion,
  nav_invalid, raise_any, raise_any-eq-ok, violations, all_utc,
}
use japan_agent.Risk.Checks.{Passes, violations-Passes}
use japan_agent.Risk.Build.Sized.{IsOverflow, Sized, size_order-Sized}
use japan_agent.Risk.Build.Limits.{size_order_lem, large_enough}
use japan_agent.Risk.Build.{
  BuildRequest, Sizing, snapshot_time, request_checks, instrument_checks, snapshot_checks,
  size_order, order_checks, ticket_of, asserted, build,
}

-- The errors that a caller of `build` has to expect.
abbrev pub IsExpected : RiskError → Type 0
IsExpected (rejected vs) = vs ≢ []
IsExpected (bad_time _) = Unit
IsExpected (bad_decimal e) = IsOverflow e
IsExpected (bad_ticket _) = ⊥
IsExpected assertion = ⊥

abbrev Expected : {A : Type 0} → Result RiskError A → Type 0
Expected (ok _) = Unit
Expected (err e) = IsExpected e

Expected-bind :
    {A B : Type 0} (m : Result RiskError A) (f : A → Result RiskError B)
    → Expected m
    → ((a : A) → m ≡ ok a → Expected (f a))
    → Expected (m >>= f)
Expected-bind (ok a) f h k = k a refl
Expected-bind (err e) f h k = h

Expected-time : {A : Type 0} (m : Result TimeError A) → Expected (map_err bad_time m)
Expected-time (ok a) = tt
Expected-time (err e) = tt

Expected-decimal :
    {A : Type 0} (m : Result DecimalError A) → Sized m → Expected (map_err bad_decimal m)
Expected-decimal (ok a) h = tt
Expected-decimal (err e) h = h

Expected-any : (vs : List Violation) → Expected (raise_any vs)
Expected-any [] = tt
Expected-any (v ∷ vs) = λ e. cc

Expected-raise : (b : Bool) (v : Violation) → Expected (raise_if b (rejected (v ∷ [])))
Expected-raise true v = λ e. cc
Expected-raise false v = tt

asserted-eq : (s t : PriceSnapshot) → asserted (some s) ≡ ok t → s ≡ t
asserted-eq s t h = cc

or-false : (a b : Bool) → a || b ≡ false → a ≡ false
or-false a b h = ground arith

module _ (policy : RiskPolicy) (r : BuildRequest) (now observed : Instant) (times : List Instant)
    (h : Passes (request_checks policy r now observed times)) where
  has_instrument : Expected (asserted r.instrument)
  unfolding request_checks instrument_checks
  has_instrument = elim (Option-cases r.instrument) [
    | inl e ↦ absurd (false≢true (sym ((rw (e, instrument_checks) at h).1.0)))
    | inr (rule, e) ↦ rw e tt
  ]

  has_snapshot : Expected (asserted r.snapshot)
  unfolding request_checks snapshot_checks
  has_snapshot = elim (Option-cases r.snapshot) [
    | inl e ↦ absurd (
        false≢true (
          sym (
            (rw (e, snapshot_checks) at
              ((Passes-append (instrument_checks r.instrument) _).0 h.1).1).0)))
    | inr (s, e) ↦ rw e tt
  ]

  positive_price : (s : PriceSnapshot) → asserted r.snapshot ≡ ok s → IsPositive s.price_gbp
  unfolding request_checks snapshot_checks
  positive_price s present = elim (Option-cases r.snapshot) [
    | inl e ↦ cc
    | inr (t, e) ↦
        let same = asserted-eq t s (rw e at present) in
        let passed =
          rw (e, snapshot_checks) at ((Passes-append (instrument_checks r.instrument) _).0 h.1).1 in
        rw (← same) (le→Lt _ _ (or-false _ _ passed.1.0))
  ]

  is_trade : is_hold r.decision.action ≡ false
  unfolding request_checks
  is_trade = h.0

abbrev IsSigned : TradeTicket → Type 0
IsSigned t = ((t.side ≡ buy) × IsPositive t.quantity) ⊎ ((t.side ≡ sell) × Lt t.quantity (dec 0 0))

post_init-Expected :
    (t : TradeTicket)
    → IsSigned t
    → t.created_at < t.expires_at
    → Expected (map_err bad_ticket (post_init t))
unfolding post_init
post_init-Expected t (inl (side, sign)) ttl = ground (arith, Lt→le t.quantity (dec 0 0) sign)
post_init-Expected t (inr (side, sign)) ttl = ground (arith, Lt→le (dec 0 0) t.quantity sign)

-- The signs of a ticket are those of its side, so `__post_init__` accepts it.
signed :
    (action : Action) (q : Decimal)
    → is_hold action ≡ false
    → IsPositive q
    → magnitude q.coefficient < precision_limit
    → ((action ≡ buy) × IsPositive (if is_buy action then q else neg q))
      ⊎ ((action ≡ sell) × Lt (if is_buy action then q else neg q) (dec 0 0))
signed buy q trade positive fits = inl (refl, positive)
signed sell q trade positive fits = inr (refl, neg-IsPositive q positive fits)
signed hold q trade positive fits = cc

module _ (policy : RiskPolicy) (id : String) (r : BuildRequest)
    (unit : IsPositive policy.quantity_places) (ttl : 0 < policy.approval_ttl) where
  Expected-ticket :
      (now observed : Instant) (times : List Instant) (rule : InstrumentRule) (s : PriceSnapshot)
      (sizing : Sizing)
      → Passes (request_checks policy r now observed times)
      → size_order policy r.decision
          (position r.portfolio rule.ticker)
          (nav_gbp r.portfolio)
          s.price_gbp
        ≡ ok sizing
      → Passes (order_checks policy r.decision.action rule r.portfolio sizing)
      → Expected (map_err bad_ticket (post_init (ticket_of policy id r rule s now sizing)))
  unfolding ticket_of
  Expected-ticket now observed times rule s sizing requested sized ordered =
      let large = large_enough policy r rule sizing ordered in
      post_init-Expected (ticket_of policy id r rule s now sizing)
        (signed r.decision.action sizing.absolute_quantity
          (is_trade policy r now observed times requested)
          (Le-IsPositive policy.quantity_places sizing.absolute_quantity unit (lt→Le _ _ large))
          (size_order_lem policy r.decision (position r.portfolio rule.ticker) (nav_gbp r.portfolio)
            s.price_gbp sizing sized).1)
        (omega arith)

  abbrev order_size : InstrumentRule → PriceSnapshot → Result RiskError Sizing
  order_size rule s = map_err bad_decimal (
      size_order policy r.decision (position r.portfolio rule.ticker) (nav_gbp r.portfolio)
        s.price_gbp)

  Expected-build : Expected (build policy id r)
  unfolding build
  Expected-build =
      Expected-bind (map_err bad_time (ensure_utc r.now)) _ (Expected-time (ensure_utc r.now))
        λ now _.
          Expected-bind (map_err bad_time (snapshot_time r.snapshot)) _
            (Expected-time (snapshot_time r.snapshot))
            λ observed _.
              Expected-bind (map_err bad_time (all_utc r.submitted_trade_times)) _
                (Expected-time (all_utc r.submitted_trade_times))
                λ times _.
                  Expected-bind
                    (raise_any (violations (request_checks policy r now observed times))) _
                    (Expected-any (violations (request_checks policy r now observed times)))
                    λ _ requested.
                      let passed = violations-Passes _ (raise_any-eq-ok _ requested) in
                      Expected-bind (asserted r.instrument) _
                        (has_instrument policy r now observed times passed)
                        λ rule _.
                          Expected-bind (asserted r.snapshot) _
                            (has_snapshot policy r now observed times passed)
                            λ s present.
                              Expected-bind
                                (raise_if (le (nav_gbp r.portfolio) (dec 0 0))
                                  (rejected (nav_invalid ∷ [])))
                                _ (Expected-raise (le (nav_gbp r.portfolio) (dec 0 0)) nav_invalid)
                                λ _ _.
                                  Expected-bind (order_size rule s) _
                                    (Expected-decimal _ (
                                      size_order-Sized policy r.decision
                                        (position r.portfolio rule.ticker) (nav_gbp r.portfolio)
                                        s.price_gbp
                                        (positive_price policy r now observed times passed s
                                          present)))
                                    λ sizing sized.
                                      Expected-bind
                                        (raise_any (
                                          violations (
                                            order_checks policy r.decision.action rule r.portfolio
                                              sizing)))
                                        _
                                        (Expected-any (
                                          violations (
                                            order_checks policy r.decision.action rule r.portfolio
                                              sizing)))
                                        λ _ ordered.
                                          Expected-ticket now observed times rule s sizing passed
                                            (map_err-eq-ok bad_decimal _ sized)
                                            (violations-Passes _ (raise_any-eq-ok _ ordered))

-- With a positive unit of shares and a positive approval time, `build` fails only by rejecting
-- with at least one violation, on a naive timestamp, or where an amount leaves the precision of
-- decimals: it never divides by zero, its assertion never fails, and TradeTicket accepts every
-- ticket that it makes.
pub build-IsExpected :
    (policy : RiskPolicy) (id : String) (r : BuildRequest) (e : RiskError)
    → IsPositive policy.quantity_places
    → 0 < policy.approval_ttl
    → build policy id r ≡ err e
    → IsExpected e
build-IsExpected policy id r e unit ttl failed = rw failed at (Expected-build policy id r unit ttl)
