-- ===== src/Predict/Forecasts/Record.antt =====
-- predict_agent/forecasts.py: the checks of `record_forecast` on the ledger.
use japan_agent.Base.{
  Bool, true, false, not, ◌&&◌, ◌||◌, Option, none, some, String, str_eq, Result, err, ◌>>=◌,
  if◌then◌else◌, ltb, any,
}
use japan_agent.Base.Table.{lookup}
use japan_agent.Time.{Instant}
use japan_agent.Predict.Ledger.{
  ForecastKind, entry, update, is_entry, is_started, Attempt, ForecastRecord, Forecast,
  RulesVersion, ArtifactKind, prompt, policy, research_input, tool_transcript, Ledger, LedgerError,
  other_attempt, early_forecast, unknown_rules, missing_artifact, repeated_forecast,
}
use japan_agent.Predict.Tickets.{refuse_if}
use japan_agent.Predict.Forecasts.Attempts.{active_cohort_row, find_attempt}

abbrev pub same_kind : ForecastKind → ForecastKind → Bool
same_kind entry entry = true
same_kind update update = true
same_kind _ _ = false

abbrev pub same_artifact_kind : ArtifactKind → ArtifactKind → Bool
same_artifact_kind prompt prompt = true
same_artifact_kind policy policy = true
same_artifact_kind research_input research_input = true
same_artifact_kind tool_transcript tool_transcript = true
same_artifact_kind _ _ = false

-- `artifact_kind(conn, digest) == kind`
unfoldable pub has_artifact : ArtifactKind → String → Ledger → Bool
has_artifact kind digest l = elim (lookup digest l.artifacts) [
  | none ↦ false
  | some a ↦ same_artifact_kind a.kind kind
]

-- The attempt is the forecast's, and not younger.
unfoldable pub check_attempt :
    ForecastRecord → Instant → Option Attempt → Result LedgerError (Unit {0})
check_attempt r now none = err other_attempt
check_attempt r now (some a) =
    if not (is_started a.status)
      || (not (str_eq a.cohort_id r.cohort_id)
          || (not (str_eq a.condition_id r.condition_id) || not (same_kind a.kind r.kind)))
    then err other_attempt
    else refuse_if (ltb now a.started_at) early_forecast

abbrev pub is_version : String → String → RulesVersion → Bool
is_version condition_id rules_hash v =
    str_eq v.condition_id condition_id && str_eq v.rules_hash rules_hash

-- An entry forecast of a cohort for a market.
abbrev pub enters : String → String → Forecast → Bool
enters cohort_id condition_id f =
    str_eq f.values.cohort_id cohort_id
    && (str_eq f.values.condition_id condition_id && is_entry f.values.kind)

-- The checks of `record_forecast` on the ledger.
unfoldable pub check_record : ForecastRecord → Instant → Ledger → Result LedgerError (Unit {0})
unfolding has_artifact check_attempt
check_record r now l = active_cohort_row r.cohort_id l >>= λ _.
    check_attempt r now (find_attempt r.attempt_id l.attempts) >>= λ _.
    refuse_if (not (any (is_version r.condition_id r.rules_hash) l.rules)) unknown_rules >>= λ _.
    refuse_if
      (not (has_artifact research_input r.research_input_hash l)
        || not (has_artifact tool_transcript r.transcript_hash l))
      missing_artifact
    >>= λ _.
        refuse_if (is_entry r.kind && any (enters r.cohort_id r.condition_id) l.forecasts)
          repeated_forecast
