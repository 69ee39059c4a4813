-- ===== src/Predict/Forecasts/Attempts.antt =====
-- predict_agent/forecasts.py: research attempts.
use japan_agent.Base.{
  ℕ, suc, Bool, not, ◌&&◌, Option, none, some, List, [], ◌∷◌, ◌++◌, map, String, str_eq, Result, ok,
  err, if◌then◌else◌, ◌==◌, length, filter,
}
use japan_agent.Base.Decimal.{Decimal}
use japan_agent.Base.Table.{lookup}
use japan_agent.Base.Exec.{Exec, pure, lift, gets, ◌>>=◌, ◌>>◌, raise_if}
use japan_agent.Time.{Instant}
use japan_agent.Predict.Ledger.{
  Cohort, ForecastKind, AttemptStatus, started, failed, is_started, Attempt, attempt_started,
  attempt_failed, Ledger, LedgerError, inactive_cohort, no_error, not_started, Hashes,
  append_journal, transaction,
}
use japan_agent.Predict.Tickets.{is_active}
use japan_agent.Predict.Forecasts.{valid_cost}

-- `_active_cohort_row`
unfoldable pub active_cohort_row : String → Ledger → Result LedgerError Cohort
active_cohort_row id l = elim (lookup id l.cohorts) [
  | none ↦ err inactive_cohort
  | some c ↦ if not (is_active c.status) then err inactive_cohort else ok c
]

abbrev pub new_attempt : String → String → ForecastKind → Instant → Ledger → Attempt
new_attempt cohort_id condition_id kind now l = record {
  attempt_id = suc (length l.attempts);
  cohort_id = cohort_id;
  condition_id = condition_id;
  kind = kind;
  started_at = now;
  status = started;
  finished_at = none;
  cost_usd = none;
  error = none;
}

-- INSERT INTO research_attempts; the row id is returned.
unfoldable pub insert_attempt : String → String → ForecastKind → Instant → Exec Ledger LedgerError ℕ
insert_attempt cohort_id condition_id kind now l = (
  ok (suc (length l.attempts)),
  record l { attempts = l.attempts ++ new_attempt cohort_id condition_id kind now l ∷ [] },
)

unfoldable pub start_attempt :
    Hashes → String → String → ForecastKind → Instant → Exec Ledger LedgerError ℕ
unfolding active_cohort_row insert_attempt
start_attempt hashes cohort_id condition_id kind now = transaction (do
  l ← gets (λ l. l)
  _ ← lift (active_cohort_row cohort_id l)
  id ← insert_attempt cohort_id condition_id kind now
  append_journal hashes (attempt_started id cohort_id condition_id) now
  pure id)

unfoldable pub find_attempt : ℕ → List Attempt → Option Attempt
find_attempt id [] = none
find_attempt id (a ∷ as') = if a.attempt_id == id then some a else find_attempt id as'

-- UPDATE research_attempts SET … WHERE attempt_id = ?
abbrev pub finish_row : ℕ → AttemptStatus → Instant → Decimal → Option String → Attempt → Attempt
finish_row id status now cost error a =
    if a.attempt_id == id
    then record a { status = status; finished_at = some now; cost_usd = some cost; error = error }
    else a

unfoldable pub finish_attempt :
    ℕ → AttemptStatus → Instant → Decimal → Option String → Exec Ledger LedgerError (Unit {0})
finish_attempt id status now cost error l =
    (ok tt, record l { attempts = map (finish_row id status now cost error) l.attempts })

-- The attempt is STARTED.
unfoldable pub started_row : Option Attempt → Result LedgerError Attempt
started_row none = err not_started
started_row (some a) = if not (is_started a.status) then err not_started else ok a

unfoldable pub fail_attempt_locked :
    Hashes → ℕ → Decimal → String → Instant → Exec Ledger LedgerError (Unit {0})
unfolding started_row find_attempt finish_attempt
fail_attempt_locked hashes id cost error now = do
  _ ← lift (valid_cost cost)
  raise_if (str_eq error "") no_error
  l ← gets (λ l. l)
  _ ← lift (started_row (find_attempt id l.attempts))
  finish_attempt id failed now cost (some error)
  append_journal hashes (attempt_failed id cost error) now

unfoldable pub fail_attempt :
    Hashes → ℕ → Decimal → String → Instant → Exec Ledger LedgerError (Unit {0})
unfolding fail_attempt_locked
fail_attempt hashes id cost error now = transaction (fail_attempt_locked hashes id cost error now)

abbrev pub is_unfinished : String → Attempt → Bool
is_unfinished cohort_id a = str_eq a.cohort_id cohort_id && is_started a.status

unfoldable pub unfinished_attempts : String → Ledger → List ℕ
unfinished_attempts cohort_id l =
    map (λ (a : Attempt). a.attempt_id) (filter (is_unfinished cohort_id) l.attempts)
