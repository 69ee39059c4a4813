-- ===== src/Predict/Forecasts/Write.antt =====
-- predict_agent/forecasts.py: the writes of `record_forecast`.
use japan_agent.Base.{
  ℕ, suc, ◌||◌, none, [], ◌∷◌, ◌++◌, String, str_eq, ok, err, if◌then◌else◌, ◌==◌, any, length,
  Bool,
}
use japan_agent.Base.Exec.{Exec, pure, lift, gets, ◌>>=◌, ◌>>◌}
use japan_agent.Time.{Instant}
use japan_agent.Predict.Ledger.{
  succeeded, ForecastRecord, Forecast, forecast_recorded, Ledger, LedgerError, integrity_error,
  Hashes, append_journal, transaction,
}
use japan_agent.Predict.Forecasts.{validate_forecast}
use japan_agent.Predict.Forecasts.Attempts.{finish_attempt}
use japan_agent.Predict.Forecasts.Record.{check_record}

abbrev pub new_forecast : Hashes → ForecastRecord → Instant → Ledger → Forecast
new_forecast hashes r now l = record {
  forecast_id = suc (length l.forecasts);
  values = r;
  created_at = now;
  forecast_hash = hashes.forecast r now;
}

-- The UNIQUE constraints of forecasts, besides that of entries.
abbrev pub forecast_clashes : ForecastRecord → String → Forecast → Bool
forecast_clashes r hash f = f.values.attempt_id == r.attempt_id || str_eq f.forecast_hash hash

-- INSERT INTO forecasts; the row id is returned.
unfoldable pub insert_forecast : Hashes → ForecastRecord → Instant → Exec Ledger LedgerError ℕ
insert_forecast hashes r now l =
    if any (forecast_clashes r (hashes.forecast r now)) l.forecasts
    then (err integrity_error, l)
    else (
      ok (suc (length l.forecasts)),
      record l { forecasts = l.forecasts ++ new_forecast hashes r now l ∷ [] },
    )

-- The writes of `record_forecast`.
unfoldable pub write_forecast : Hashes → ForecastRecord → Instant → Exec Ledger LedgerError ℕ
unfolding insert_forecast
write_forecast hashes r now = do
  id ← insert_forecast hashes r now
  finish_attempt r.attempt_id succeeded now r.cost_usd none
  append_journal hashes
      (forecast_recorded id r.attempt_id r.cohort_id r.condition_id r.kind (hashes.forecast r now))
      now
  pure id

unfoldable pub record_locked : Hashes → ForecastRecord → Instant → Exec Ledger LedgerError ℕ
unfolding write_forecast
record_locked hashes r now = do
  checked ← gets (check_record r now)
  lift checked
  write_forecast hashes r now

unfoldable pub record_forecast : Hashes → ForecastRecord → Instant → Exec Ledger LedgerError ℕ
unfolding record_locked
record_forecast hashes r now = do
  lift (validate_forecast r)
  transaction (record_locked hashes r now)
