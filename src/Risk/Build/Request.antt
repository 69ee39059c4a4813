-- ===== src/Risk/Build/Request.antt =====
-- What ProposalBuilder.build has checked of its request when it returns a ticket.
use japan_agent.Base.{
  not-true, ◌≡◌, ◌≢◌, ℕ, ◌+◌, ◌≤◌, ◌<◌, Bool, true, false, not, ◌&&◌, ◌||◌, Option, some, none,
  List, String, ok, arith, str_eq, str_eq_iff, leb, ltb, leb→lt, ap,
}
use mathlib.Core.Option.{some-injective}
use japan_agent.Base.Decimal.{dec, le}
use japan_agent.Base.Decimal.Order.{IsPositive, le→Lt}
use japan_agent.Time.{Instant, ensure_utc}
use japan_agent.Models.Enums.{Action, hold, is_hold}
use japan_agent.Models.Portfolio.{InstrumentRule, PriceSnapshot}
use japan_agent.Models.Ticket.{TradeTicket}
use japan_agent.Risk.Policy.{RiskPolicy, is_cash_type, trades_this_week, all_utc}
use japan_agent.Risk.Checks.{Passes}
use japan_agent.Risk.Build.{
  BuildRequest, snapshot_time, instrument_checks, snapshot_checks, request_checks, ticket_of, build,
}
use japan_agent.Risk.Build.Accepted.{build-Accepted}

-- What a request must be for a ticket to come of it.
pub record IsFresh (policy : RiskPolicy) (r : BuildRequest) (t : TradeTicket) : Type 0 where
  pub now : Instant
  pub observed : Instant
  pub times : List Instant
  pub rule : InstrumentRule
  pub snapshot : PriceSnapshot
  pub now_aware : ensure_utc r.now ≡ ok now
  pub observed_aware : ensure_utc snapshot.observed_at ≡ ok observed
  pub times_aware : all_utc r.submitted_trade_times ≡ ok times
  pub listed : r.instrument ≡ some rule
  pub priced : r.snapshot ≡ some snapshot
  pub cash_type : is_cash_type rule.instrument_type ≡ true
  pub quoted : snapshot.ticker ≡ r.decision.instrument
  pub positive : IsPositive snapshot.price_gbp × IsPositive snapshot.native_price
  pub not_future : observed ≤ now
  pub not_stale : now ≤ observed + policy.max_snapshot_age
  pub below_limit : trades_this_week now times < policy.max_trades_per_week
  pub single : r.duplicate_open ≡ false
  pub made_now : t.created_at ≡ now
  pub expires : t.expires_at ≡ now + policy.approval_ttl
  pub names : (t.ticker ≡ rule.ticker) × (t.side ≡ r.decision.action) × (t.side ≢ hold)

not_hold : (a : Action) → is_hold a ≡ false → a ≢ hold
not_hold a h e = ground arith

both_false : (a b : Bool) → a || b ≡ false → (a ≡ false) × (b ≡ false)
both_false a b h = ground arith

age_bounds :
    (now observed age : ℕ)
    → ltb now observed ≡ false
    → not (ltb now observed) && ltb (observed + age) now ≡ false
    → (observed ≤ now) × (now ≤ observed + age)
age_bounds now observed age h k = ground arith

observed_of :
    (o : Option PriceSnapshot) (s : PriceSnapshot) (t : Instant)
    → o ≡ some s
    → snapshot_time o ≡ ok t
    → ensure_utc s.observed_at ≡ ok t
observed_of none s t e h = cc
observed_of (some s') s t e h = rw (← some-injective s' s e) h

-- The tests on a request that has an instrument and a snapshot, none of which holds.
record Tested (policy : RiskPolicy) (r : BuildRequest) (now observed : Instant)
    (times : List Instant) (rule : InstrumentRule) (s : PriceSnapshot) : Type 0 where
  traded : is_hold r.decision.action ≡ false
  cash_type : not (is_cash_type rule.instrument_type) ≡ false
  quoted : not (str_eq s.ticker r.decision.instrument) ≡ false
  positive : le s.price_gbp (dec 0 0) || le s.native_price (dec 0 0) ≡ false
  not_future : ltb now observed ≡ false
  not_stale : not (ltb now observed) && ltb (observed + policy.max_snapshot_age) now ≡ false
  below_limit : leb policy.max_trades_per_week (trades_this_week now times) ≡ false
  single : r.duplicate_open ≡ false

Passes-Tested :
    (policy : RiskPolicy) (r : BuildRequest) (now observed : Instant) (times : List Instant)
    (rule : InstrumentRule) (s : PriceSnapshot)
    → r.instrument ≡ some rule
    → r.snapshot ≡ some s
    → Passes (request_checks policy r now observed times)
    → Tested policy r now observed times rule s
unfolding request_checks instrument_checks snapshot_checks
Passes-Tested policy r now observed times rule s listed priced h =
    let (
      traded,
      (cash_type, (quoted, (positive, (not_future, (not_stale, (below_limit, (single, _))))))),
    ) =
      rw (listed, priced, instrument_checks, snapshot_checks) at h in
    record {
      traded = traded;
      cash_type = cash_type;
      quoted = quoted;
      positive = positive;
      not_future = not_future;
      not_stale = not_stale;
      below_limit = below_limit;
      single = single;
    }

-- A ticket comes only of a request whose instrument is a listed share or fund, whose decision is
-- no HOLD and names the snapshot's ticker, whose prices are positive, whose snapshot is at most
-- the policy's age and not of the future, which stays below the weekly number of trades, and of
-- which no duplicate is open; the ticket is for that instrument and side, and expires after the
-- approval period.
pub build-IsFresh :
    (policy : RiskPolicy) (id : String) (r : BuildRequest) {t : TradeTicket}
    → build policy id r ≡ ok t
    → IsFresh policy r t
unfolding ticket_of
build-IsFresh policy id r built =
    let a = build-Accepted policy id r built in
    let h =
      Passes-Tested policy r a.now a.observed a.times a.rule a.snapshot a.listed a.priced
        a.requested in
    let prices = both_false _ _ h.positive in
    let age = age_bounds a.now a.observed policy.max_snapshot_age h.not_future h.not_stale in
    record {
      now = a.now;
      observed = a.observed;
      times = a.times;
      rule = a.rule;
      snapshot = a.snapshot;
      now_aware = a.now_utc;
      observed_aware = observed_of r.snapshot a.snapshot a.observed a.priced a.observed_utc;
      times_aware = a.times_utc;
      listed = a.listed;
      priced = a.priced;
      cash_type = not-true _ h.cash_type;
      quoted = (str_eq_iff _ _).0 (not-true _ h.quoted);
      positive = (le→Lt _ _ prices.0, le→Lt _ _ prices.1);
      not_future = age.0;
      not_stale = age.1;
      below_limit = leb→lt _ _ h.below_limit;
      single = h.single;
      made_now = ap (λ (u : TradeTicket). u.created_at) a.ticket;
      expires = ap (λ (u : TradeTicket). u.expires_at) a.ticket;
      names = (
        ap (λ (u : TradeTicket). u.ticker) a.ticket,
        ap (λ (u : TradeTicket). u.side) a.ticket,
        rw a.ticket (not_hold r.decision.action h.traded),
      );
    }
