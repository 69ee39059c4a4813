-- ===== src/Risk/Build/Accepted.antt =====
-- What ProposalBuilder.build has established when it returns a ticket.
use japan_agent.Base.{
  ◌≡◌, Option, some, List, [], String, ok, >>=-eq-ok, map_err, map_err-eq-ok, raise_if,
  raise_if-eq-ok, arith, false, none, ◌∷◌,
}
use japan_agent.Base.Decimal.{dec, le}
use japan_agent.Time.{Instant, ensure_utc}
use japan_agent.Models.Portfolio.{InstrumentRule, PriceSnapshot, nav_gbp, position}
use japan_agent.Models.Ticket.{TradeTicket, post_init}
use japan_agent.Risk.Policy.{
  RiskPolicy, bad_time, raise_any, raise_any-eq-ok, violations, bad_decimal, rejected, nav_invalid,
  all_utc,
}
use japan_agent.Risk.Checks.{Passes, violations-Passes}
use japan_agent.Risk.Build.{
  BuildRequest, Sizing, snapshot_time, request_checks, size_order, order_checks, ticket_of,
  asserted, build,
}

pub record Accepted (policy : RiskPolicy) (id : String) (r : BuildRequest) (t : TradeTicket)
    : Type 0 where
  pub now : Instant
  pub observed : Instant
  pub times : List Instant
  pub rule : InstrumentRule
  pub snapshot : PriceSnapshot
  pub sizing : Sizing
  pub now_utc : ensure_utc r.now ≡ ok now
  pub observed_utc : snapshot_time r.snapshot ≡ ok observed
  pub times_utc : all_utc r.submitted_trade_times ≡ ok times
  pub listed : r.instrument ≡ some rule
  pub priced : r.snapshot ≡ some snapshot
  pub requested : Passes (request_checks policy r now observed times)
  pub nav_positive : le (nav_gbp r.portfolio) (dec 0 0) ≡ false
  pub sized :
      size_order policy r.decision
        (position r.portfolio rule.ticker)
        (nav_gbp r.portfolio)
        snapshot.price_gbp
      ≡ ok sizing
  pub ordered : Passes (order_checks policy r.decision.action rule r.portfolio sizing)
  pub ticket : t ≡ ticket_of policy id r rule snapshot now sizing

asserted-eq-ok : {A : Type 0} (o : Option A) {a : A} → asserted o ≡ ok a → o ≡ some a
asserted-eq-ok none h = cc
asserted-eq-ok (some a) h = cc

post_init-eq-ok : (t : TradeTicket) {u : TradeTicket} → post_init t ≡ ok u → u ≡ t
unfolding post_init
post_init-eq-ok t h = ground arith

module _ (policy : RiskPolicy) (id : String) (r : BuildRequest) {t : TradeTicket} where
  pub build-Accepted : build policy id r ≡ ok t → Accepted policy id r t
  unfolding build
  build-Accepted h =
      let (now, now_ok, h₁) = >>=-eq-ok (map_err bad_time (ensure_utc r.now)) _ h in
      let (observed, observed_ok, h₂) =
        >>=-eq-ok (map_err bad_time (snapshot_time r.snapshot)) _ h₁ in
      let (times, times_ok, h₃) =
        >>=-eq-ok (map_err bad_time (all_utc r.submitted_trade_times)) _ h₂ in
      let (_, requested, h₄) =
        >>=-eq-ok (raise_any (violations (request_checks policy r now observed times))) _ h₃ in
      let (rule, listed, h₅) = >>=-eq-ok (asserted r.instrument) _ h₄ in
      let (snapshot, priced, h₆) = >>=-eq-ok (asserted r.snapshot) _ h₅ in
      let (_, positive, h₇) =
        >>=-eq-ok (raise_if (le (nav_gbp r.portfolio) (dec 0 0)) (rejected (nav_invalid ∷ []))) _
          h₆ in
      let (sizing, sized, h₈) =
        >>=-eq-ok
          (map_err bad_decimal (
            size_order policy r.decision (position r.portfolio rule.ticker) (nav_gbp r.portfolio)
              snapshot.price_gbp))
          _ h₇ in
      let (_, ordered, h₉) =
        >>=-eq-ok
          (raise_any (violations (order_checks policy r.decision.action rule r.portfolio sizing))) _
          h₈ in
      record {
        now = now;
        observed = observed;
        times = times;
        rule = rule;
        snapshot = snapshot;
        sizing = sizing;
        now_utc = map_err-eq-ok _ _ now_ok;
        observed_utc = map_err-eq-ok _ _ observed_ok;
        times_utc = map_err-eq-ok _ _ times_ok;
        listed = asserted-eq-ok _ listed;
        priced = asserted-eq-ok _ priced;
        requested = violations-Passes _ (raise_any-eq-ok _ requested);
        nav_positive = raise_if-eq-ok _ _ positive;
        sized = map_err-eq-ok _ _ sized;
        ordered = violations-Passes _ (raise_any-eq-ok _ ordered);
        ticket = post_init-eq-ok _ (map_err-eq-ok _ _ h₉);
      }
