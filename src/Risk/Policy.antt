-- ===== src/Risk/Policy.antt =====
-- RiskPolicy, the violation codes, and the checks that both methods of ProposalBuilder make.
use japan_agent.Base.{
  ℕ, ◌≡◌, refl, Bool, true, false, ◌||◌, Option, none, some, List, [], ◌∷◌, String, Result, ok, err,
  ◌>>=◌, if◌then◌else◌, leb, count,
}
use japan_agent.Base.Text.{upper_is}
use japan_agent.Base.Decimal.{Decimal, dec, lt, min_of, DecimalError}
use japan_agent.Time.{Instant, hours, TimeError, Datetime, ensure_utc, monday_of}
use japan_agent.Models.Enums.{is_capped_sleeve}
use japan_agent.Models.Portfolio.{InstrumentRule}
use japan_agent.Models.Ticket.{TicketError}

pub record RiskPolicy : Type 0 where
  pub max_position_fraction : Decimal
  pub satellite_max_gbp : Decimal
  pub max_trades_per_week : ℕ
  pub cash_floor_gbp : Decimal
  pub max_snapshot_age : ℕ
  pub max_price_deviation_fraction : Decimal
  pub approval_ttl : ℕ
  pub quantity_places : Decimal

abbrev pub default_policy : RiskPolicy
default_policy = record {
  max_position_fraction = dec 40 2;
  satellite_max_gbp = dec 15 0;
  max_trades_per_week = 3;
  cash_floor_gbp = dec 5 0;
  max_snapshot_age = hours 72;
  max_price_deviation_fraction = dec 3 2;
  approval_ttl = hours 24;
  quantity_places = dec 1 4;
}

-- The codes of RiskViolation; the messages beside them are not modelled.
pub data Violation : Type 0 where
  hold_decision not_whitelisted type_blocked missing_price price_ticker price_invalid : Violation
  price_future price_stale weekly_trade_limit duplicate_open nav_invalid : Violation
  action_target_mismatch order_too_small insufficient_shares position_limit : Violation
  absolute_position_limit cash_floor negative_position : Violation

pub data RiskError : Type 0 where
  rejected : List Violation → RiskError
  bad_time : TimeError → RiskError
  bad_decimal : DecimalError → RiskError
  bad_ticket : TicketError → RiskError
  assertion : RiskError

-- One `if test: violations.append(RiskViolation(code, …))`.
abbrev pub Check : Type 0
Check = Bool × Violation

-- What a run of such statements has appended.
unfoldable pub violations : List Check → List Violation
violations [] = []
violations ((test, code) ∷ checks) =
    let rest = violations checks in if test then code ∷ rest else rest

-- `if violations: raise RiskRejected(violations)`
abbrev pub raise_any : List Violation → Result RiskError Unit
raise_any [] = ok tt
raise_any (v ∷ vs) = err (rejected (v ∷ vs))

pub raise_any-eq-ok : (vs : List Violation) {u : Unit {0}} → raise_any vs ≡ ok u → vs ≡ []
raise_any-eq-ok [] h = refl
raise_any-eq-ok (v ∷ vs) h = cc

-- `instrument_type.upper() in {"STOCK", "ETF"}`
unfoldable pub is_cash_type : String → Bool
is_cash_type t = upper_is t "STOCK" || upper_is t "ETF"

-- `[ensure_utc(item) for item in times]`
abbrev pub all_utc : List Datetime → Result TimeError (List Instant)
all_utc [] = ok []
all_utc (t ∷ ts) = do u ← ensure_utc t; us ← all_utc ts; ok (u ∷ us)

-- `sum(ensure_utc(item) >= monday for item in submitted_trade_times)`
unfoldable pub trades_this_week : Instant → List Instant → ℕ
unfolding monday_of
trades_this_week now times = count (λ t. leb (monday_of now) t) times

-- `min(instrument.max_position_fraction, self.policy.max_position_fraction)`
unfoldable pub fraction_cap : RiskPolicy → InstrumentRule → Decimal
unfolding min_of
fraction_cap policy rule = min_of rule.max_position_fraction policy.max_position_fraction

-- The instrument's own cap, or the policy's for the two capped sleeves.
unfoldable pub absolute_cap : RiskPolicy → InstrumentRule → Option Decimal
absolute_cap policy rule = elim rule.max_position_gbp [
  | some cap ↦ some cap
  | none ↦ if is_capped_sleeve rule.sleeve then some policy.satellite_max_gbp else none
]

-- `absolute_cap is not None and projected > absolute_cap`
abbrev pub exceeds : Decimal → Option Decimal → Bool
exceeds value none = false
exceeds value (some cap) = lt cap value

types_accepted :
    (is_cash_type "Stock" ≡ true) × (is_cash_type "etf" ≡ true) × (is_cash_type "CFD" ≡ false)
unfolding is_cash_type upper_is
types_accepted = (refl, refl, refl)
