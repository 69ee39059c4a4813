-- ===== src/Predict/Forecasts/Attach.antt =====
-- predict_agent/forecasts.py: `attach_baseline` and `mark_no_timely_baseline`.
use japan_agent.Base.{ℕ, none, some, List, [], ◌∷◌, ◌++◌, String, ok, err, if◌then◌else◌}
use japan_agent.Base.Exec.{Exec, pure, lift, gets, ◌>>=◌, ◌>>◌}
use japan_agent.Time.{Instant}
use japan_agent.Predict.Ledger.{
  is_entry, Forecast, snapshots, no_baseline, Baseline, baseline_attached, baseline_missed, Ledger,
  LedgerError, integrity_error, Hashes, append_journal, transaction,
}
use japan_agent.Predict.Tickets.{find_baseline}
use japan_agent.Predict.Tickets.Open.{insert_decision}
use japan_agent.Predict.Forecasts.Resume.{undecided_portfolios}
use japan_agent.Predict.Forecasts.Baseline.{
  check_baseline, check_missed, baseline_at, missed_decision,
}

-- INSERT INTO forecast_baselines, whose key is the forecast.
unfoldable pub insert_baseline : Baseline → Exec Ledger LedgerError (Unit {0})
unfolding find_baseline
insert_baseline b l = elim (find_baseline b.forecast_id l.baselines) [
  | some _ ↦ (err integrity_error, l)
  | none ↦ (ok tt, record l { baselines = l.baselines ++ b ∷ [] })
]

-- The writes of `attach_baseline`.
unfoldable pub write_baseline : Hashes → ℕ → ℕ → ℕ → Instant → Exec Ledger LedgerError (Unit {0})
unfolding insert_baseline
write_baseline hashes id yes_id no_id now = do
  insert_baseline (baseline_at id (snapshots yes_id no_id) now)
  append_journal hashes (baseline_attached id yes_id no_id) now

unfoldable pub attach_locked : Hashes → ℕ → ℕ → ℕ → Instant → Exec Ledger LedgerError (Unit {0})
unfolding write_baseline
attach_locked hashes id yes_id no_id now = do
  checked ← gets (check_baseline id yes_id no_id)
  lift checked
  write_baseline hashes id yes_id no_id now

unfoldable pub attach_baseline : Hashes → ℕ → ℕ → ℕ → Instant → Exec Ledger LedgerError (Unit {0})
unfolding attach_locked
attach_baseline hashes id yes_id no_id now = transaction (attach_locked hashes id yes_id no_id now)

-- The decisions of the portfolios, in order.
unfoldable pub decide_missed : Forecast → Instant → List String → Exec Ledger LedgerError (Unit {0})
unfolding insert_decision
decide_missed f now [] = pure tt
decide_missed f now (id ∷ ids) = do
  insert_decision (missed_decision f now id)
  decide_missed f now ids

-- The writes of `mark_no_timely_baseline`.
unfoldable pub write_missed :
    Hashes → ℕ → Instant → Forecast × ℕ → Exec Ledger LedgerError (Unit {0})
unfolding insert_baseline decide_missed
write_missed hashes id now row = do
  insert_baseline (baseline_at id (no_baseline "NO_TIMELY_BASELINE") now)
  ids ← gets (undecided_portfolios id)
  (if is_entry row.0.values.kind then decide_missed row.0 now ids else pure tt)
  append_journal hashes (baseline_missed id) now

unfoldable pub miss_locked : Hashes → ℕ → Instant → Exec Ledger LedgerError (Unit {0})
unfolding write_missed
miss_locked hashes id now = do
  checked ← gets (check_missed id now)
  row ← lift checked
  write_missed hashes id now row

unfoldable pub mark_no_timely_baseline : Hashes → ℕ → Instant → Exec Ledger LedgerError (Unit {0})
unfolding miss_locked
mark_no_timely_baseline hashes id now = transaction (miss_locked hashes id now)
