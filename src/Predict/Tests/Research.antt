-- ===== src/Predict/Tests/Research.antt =====
-- An attempt, a forecast and its baseline.
use japan_agent.Base.{ℕ, ◌≡◌, refl, none, some, true, false, [], ◌∷◌, ok, map, filter, count}
use japan_agent.Base.Table.{lookup}
use japan_agent.Base.Decimal.{dec, lt, le}
use japan_agent.Predict.Outcome.{Outcome, yes, no}
use japan_agent.Predict.Params.Parse.{not_json}
use japan_agent.Predict.Params.{confidence_of}
use japan_agent.Predict.Gamma.{finite}
use japan_agent.Predict.Ledger.{
  ForecastRecord, entry, Attempt, started, is_started, active, Snapshot, research_input,
  tool_transcript, Ledger, append_journal, transaction,
}
use japan_agent.Predict.Forecasts.{validate_forecast}
use japan_agent.Predict.Forecasts.Valid.{IsValid, validate_forecast-IsValid}
use japan_agent.Predict.Forecasts.Attempts.{active_cohort_row, find_attempt, finish_attempt}
use japan_agent.Predict.Forecasts.Record.{check_record}
use japan_agent.Predict.Forecasts.Baseline.{check_baseline}
use japan_agent.Predict.Forecasts.Resume.{forecast_row}
use japan_agent.Predict.Forecasts.Write.{record_forecast}
use japan_agent.Predict.Forecasts.Recorded.{Recording, record_forecast-Recording}
use japan_agent.Predict.Forecasts.Attach.{attach_baseline}
use japan_agent.Predict.Forecasts.Timely.{Attaching, attach_baseline-Attaching}
use japan_agent.Predict.Budget.{attempt_caps, highest_of, recover_interrupted_attempts}
use japan_agent.Predict.Budget.Recovered.{recovered, recover_interrupted_attempts_ends}
use japan_agent.Predict.Tests.{hashes, ledger}

abbrev pub forecast : ForecastRecord
forecast = record {
  attempt_id = 1;
  cohort_id = "g1";
  condition_id = "c1";
  rules_hash = "r1";
  kind = entry;
  abstained = false;
  abstain_reason = none;
  p_low = some (dec 55 2);
  p_mid = some (dec 58 2);
  p_high = some (dec 60 2);
  confidence = some "medium";
  base_rate = some (dec 50 2);
  body = record {
    evidence_is_list = true;
    interpretation_is_text = true;
    flags_are_list = true;
    json = "{}";
  };
  research_input_hash = "0000000000000000000000000000000000000000000000000000000000000001";
  transcript_hash = "0000000000000000000000000000000000000000000000000000000000000002";
  cost_usd = dec 25 2;
}

abbrev digested : ForecastRecord
digested = record forecast {
  rules_hash = "0000000000000000000000000000000000000000000000000000000000000003";
}

valid : validate_forecast digested ≡ ok tt
unfolding validate_forecast lt le confidence_of
valid = refl

validate_forecast-IsValid_example : IsValid digested
validate_forecast-IsValid_example = validate_forecast-IsValid digested valid

abbrev begun : Attempt
begun = record {
  attempt_id = 1;
  cohort_id = "g1";
  condition_id = "c1";
  kind = entry;
  started_at = 20;
  status = started;
  finished_at = none;
  cost_usd = none;
  error = none;
}

abbrev snapshot_of : ℕ → Outcome → Snapshot
snapshot_of id side = record {
  id = id;
  condition_id = "c1";
  outcome = side;
  fetched_at = 100;
  asks = [];
  tick_size = dec 1 2;
  min_order_size = dec 5 0;
  fees_enabled = false;
  fee_schedule = none;
}

-- A running cohort with one STARTED attempt, and two snapshots.
abbrev before : Ledger
before = record ledger {
  artifacts =
      (
        digested.research_input_hash,
        record { kind = research_input; content = "{}"; policy = not_json },
      )
      ∷ (
        digested.transcript_hash,
        record { kind = tool_transcript; content = "[]"; policy = not_json },
      )
      ∷ [];
  cohorts =
      (
        "g1",
        record {
          status = active;
          starting_bankroll = dec 100 0;
          baseline_window_seconds = 600;
          frozen_cap = finite (dec 15 1);
          code_version = "v1";
          started_at = 10;
          closed_at = none;
        },
      )
      ∷ [];
  rules = record { condition_id = "c1"; rules_hash = digested.rules_hash; end_date = none } ∷ [];
  attempts = begun ∷ [];
  snapshots = snapshot_of 1 yes ∷ snapshot_of 2 no ∷ [];
}

record_forecast-Recording_example :
    Recording hashes digested 50 before (record_forecast hashes digested 50 before)
record_forecast-Recording_example = record_forecast-Recording hashes digested 50 before

-- The forecast is recorded.
records : (record_forecast hashes digested 50 before).0 ≡ ok 1
unfolding record_forecast validate_forecast le confidence_of transaction check_record
    active_cohort_row lookup find_attempt finish_attempt append_journal
records = refl

abbrev forecasted : Ledger
forecasted = record before {
  forecasts =
      record { forecast_id = 1; values = digested; created_at = 50; forecast_hash = "f1" } ∷ [];
}

attach_baseline-Attaching_example :
    Attaching hashes 1 1 2 120 forecasted (attach_baseline hashes 1 1 2 120 forecasted)
attach_baseline-Attaching_example = attach_baseline-Attaching hashes 1 1 2 120 forecasted

-- The baseline is attached.
attaches : (attach_baseline hashes 1 1 2 120 forecasted).0 ≡ ok tt
unfolding attach_baseline transaction check_baseline forecast_row lookup append_journal
attaches = refl

not_below : lt (dec 2 0) (dec 0 0) ≡ false
unfolding lt
not_below = refl

recover_interrupted_attempts_ends_example :
    let caps = attempt_caps (dec 2 0) before in
    let q = recover_interrupted_attempts hashes (dec 2 0) 300 before in
    (q.0
      ≡ ok (
          map
            (λ (a : Attempt). a.attempt_id)
            (filter (λ (a : Attempt). is_started a.status) before.attempts)))
    × (q.1.attempts ≡ map (recovered hashes 300 caps (highest_of (dec 2 0) caps)) before.attempts)
    × (count (λ (a : Attempt). is_started a.status) q.1.attempts ≡ 0)
recover_interrupted_attempts_ends_example =
    recover_interrupted_attempts_ends hashes 300 (dec 2 0) before not_below (refl, tt)
