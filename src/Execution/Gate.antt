-- ===== src/Execution/Gate.antt =====
-- assert_environment_allowed and LiveGate of japan_agent/execute/service.py, and load_whitelist
-- of japan_agent/config.py.
pub mod Allowed
use japan_agent.Base.{
  ◌+◌, ◌-◌, ◌/◌, Bool, ◌||◌, not, Option, none, some, get_or, List, [], ◌∷◌, String, str_eq, Result,
  ok, err, ◌>>=◌, ◌>>◌, raise_if, if◌then◌else◌, ltb,
}
use japan_agent.Base.Int.{ℤ, pos, ltb_ℤ}
use japan_agent.Base.Text.{is_blank}
use japan_agent.Time.{Instant, days}
use japan_agent.Models.Portfolio.{InstrumentRule}
use japan_agent.Execution.Errors.{
  BlockReason, kill_switch, no_acknowledgement, no_consent, no_gate_file, gate_permissions,
  gate_malformed, no_human_approver, consent_mismatch, too_few_days, dates_do_not_support,
  gates_not_passed, review_in_future, ExecutionError, whitelist_environment,
}

pub record LiveGate : Type 0 where
  pub approved_by : String
  pub reviewed_at : Instant
  pub paper_tracking_started_at : Instant
  pub manual_fix_free_days : ℤ
  pub no_risk_breaches : Bool
  pub journal_verified : Bool
  pub compliance_confirmation_reference : String

-- What is found at `live_gate_file`: no file, one that others may access, one that does not
-- parse, or a gate.
pub data GateFile : Type 0 where
  missing accessible malformed : GateFile
  gate_file : LiveGate → GateFile

-- The whitelist file, as parsed.
pub record Whitelist : Type 0 where
  pub verified : Bool
  pub account_environment : String
  pub instruments : List InstrumentRule

pub record Settings : Type 0 where
  pub killswitch_engaged : Bool
  pub t212_environment : String
  pub allow_live_trading : Option String
  pub written_consent_reference : Option String
  pub live_gate_file : GateFile
  pub whitelist : Whitelist

-- `LiveGate.from_file`
unfoldable pub gate_from_file : GateFile → Result BlockReason LiveGate
gate_from_file missing = err no_gate_file
gate_from_file accessible = err gate_permissions
gate_from_file malformed = err gate_malformed
gate_from_file (gate_file g) = ok g

-- `elapsed < timedelta(days=14) or gate.manual_fix_free_days > elapsed.days`
unfoldable pub dates_fall_short : LiveGate → Bool
dates_fall_short g =
    ltb g.reviewed_at (g.paper_tracking_started_at + days 14)
    || ltb_ℤ (pos ((g.reviewed_at - g.paper_tracking_started_at) / days 1)) g.manual_fix_free_days

unfoldable pub check_gate : String → Instant → LiveGate → Result BlockReason (Unit {0})
check_gate consent now g = do
  raise_if (is_blank g.approved_by) no_human_approver
  raise_if (not (str_eq g.compliance_confirmation_reference consent)) consent_mismatch
  raise_if (ltb_ℤ g.manual_fix_free_days (pos 14)) too_few_days
  raise_if (dates_fall_short g) dates_do_not_support
  raise_if (not g.no_risk_breaches || not g.journal_verified) gates_not_passed
  raise_if (ltb now g.reviewed_at) review_in_future

-- The checks for an environment that is not demo.
unfoldable pub check_live : Settings → Instant → Result BlockReason (Unit {0})
unfolding gate_from_file check_gate
check_live s now = do
  raise_if (not (str_eq (get_or s.allow_live_trading "") "I_ACKNOWLEDGE_REAL_MONEY"))
      no_acknowledgement
  raise_if (str_eq (get_or s.written_consent_reference "") "") no_consent
  g ← gate_from_file s.live_gate_file
  check_gate (get_or s.written_consent_reference "") now g

unfoldable pub assert_environment_allowed : Settings → Instant → Result BlockReason (Unit {0})
unfolding check_live
assert_environment_allowed s now =
    if s.killswitch_engaged
    then err kill_switch
    else if str_eq s.t212_environment "demo"
    then ok tt
    else check_live s now

-- `{rule.ticker: rule for rule in …}.get(ticker)`: the last rule of a ticker counts.
unfoldable pub find_rule : String → List InstrumentRule → Option InstrumentRule
find_rule ticker [] = none
find_rule ticker (rule ∷ rules) = elim (find_rule ticker rules) [
  | some later ↦ some later
  | none ↦ if str_eq rule.ticker ticker then some rule else none
]

-- `settings.load_whitelist().get(ticker)`: empty unless verified, a ValueError for another
-- environment
unfoldable pub whitelisted : Settings → String → Result ExecutionError (Option InstrumentRule)
unfolding find_rule
whitelisted s ticker =
    if not s.whitelist.verified
    then ok none
    else if not (str_eq s.whitelist.account_environment s.t212_environment)
    then err whitelist_environment
    else ok (find_rule ticker s.whitelist.instruments)
