-- ===== src/Predict/Forecasts/Baseline.antt =====
-- predict_agent/forecasts.py: the baseline of a forecast, and its checks.
use japan_agent.Base.{
  ℕ, not, Option, none, some, is_some, List, [], ◌∷◌, String, str_eq, Result, ok, err, ◌>>=◌,
  if◌then◌else◌, ◌==◌, ltb, leb,
}
use japan_agent.Time.{Instant}
use japan_agent.Predict.Outcome.{Outcome, yes, no, same_outcome}
use japan_agent.Predict.Ledger.{
  Forecast, BaselineSides, Baseline, Snapshot, no_timely_baseline, Decision, Ledger, LedgerError,
  repeated_baseline, unknown_snapshot, other_market, other_side, too_early, too_late, still_open,
}
use japan_agent.Predict.Tickets.{find_baseline, refuse_if}
use japan_agent.Predict.Forecasts.Resume.{forecast_row, baseline_deadline}

unfoldable pub find_snapshot : ℕ → List Snapshot → Option Snapshot
find_snapshot id [] = none
find_snapshot id (s ∷ ss) = if s.id == id then some s else find_snapshot id ss

-- The checks of one snapshot of a baseline.
unfoldable pub check_snapshot :
    Forecast × ℕ → Outcome → Option Snapshot → Result LedgerError (Unit {0})
check_snapshot row side none = err unknown_snapshot
check_snapshot row side (some s) =
    if not (str_eq s.condition_id row.0.values.condition_id)
    then err other_market
    else if not (same_outcome s.outcome side)
    then err other_side
    else if ltb s.fetched_at row.0.created_at
    then err too_early
    else if ltb (baseline_deadline row) s.fetched_at
    then err too_late
    else ok tt

-- The checks of `attach_baseline`.
unfoldable pub check_baseline : ℕ → ℕ → ℕ → Ledger → Result LedgerError (Unit {0})
unfolding check_snapshot find_snapshot
check_baseline id yes_id no_id l = forecast_row id l >>= λ row.
    refuse_if (is_some (find_baseline id l.baselines)) repeated_baseline >>= λ _.
    check_snapshot row yes (find_snapshot yes_id l.snapshots) >>= λ _.
    check_snapshot row no (find_snapshot no_id l.snapshots)

-- The checks of `mark_no_timely_baseline`.
unfoldable pub check_missed : ℕ → Instant → Ledger → Result LedgerError (Forecast × ℕ)
check_missed id now l = forecast_row id l >>= λ row.
    refuse_if (is_some (find_baseline id l.baselines)) repeated_baseline >>= λ _.
    refuse_if (leb now (baseline_deadline row)) still_open >>= λ _. ok row

abbrev pub baseline_at : ℕ → BaselineSides → Instant → Baseline
baseline_at id sides now = record { forecast_id = id; sides = sides; attached_at = now }

abbrev pub missed_decision : Forecast → Instant → String → Decision
missed_decision f now portfolio_id = record {
  portfolio_id = portfolio_id;
  forecast_id = f.forecast_id;
  condition_id = f.values.condition_id;
  kind = no_timely_baseline "baseline snapshot not taken within the window";
  decided_at = now;
}
