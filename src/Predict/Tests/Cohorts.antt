-- ===== src/Predict/Tests/Cohorts.antt =====
-- A cohort that takes the place of another.
use japan_agent.Base.{◌≡◌, refl, none, [], ◌∷◌, ok, arith}
use japan_agent.Base.Table.{lookup, insert, update}
use japan_agent.Base.Text.{text_before}
use japan_agent.Base.Sort.{sort}
use japan_agent.Base.Decimal.{dec, lt, le, eq, add, mul}
use japan_agent.Predict.Params.Parse.{not_json}
use japan_agent.Predict.Gamma.{unreadable}
use japan_agent.Predict.Ledger.{active, prompt, policy, Ledger, transaction, append_journal}
use japan_agent.Predict.Cash.{append_cash_entry}
use japan_agent.Predict.Forecasts.Record.{has_artifact}
use japan_agent.Predict.Cohorts.{CohortIdentity, Ids, validate_identity, stores_artifacts}
use japan_agent.Predict.Cohorts.Ensure.{ensure_cohort}
use japan_agent.Predict.Cohorts.Sole.{Ensuring, ensure_cohort-Ensuring}
use japan_agent.Predict.Tests.{hashes, ledger}

abbrev ids : Ids
ids = record {
  identity_json = λ i. i.model_id;
  cohort_id_for = λ i. i.model_id;
  portfolio_id_for = λ cohort_id variant. variant;
}

abbrev identity : CohortIdentity
identity = record {
  portfolios = ("shadow_mid", "h2") ∷ ("primary", "h1") ∷ [];
  prompt_hash = "h0";
  model_id = "g2";
  frozen_cap = unreadable;
  scoring_version = "s1";
  baseline_window_seconds = 600;
  generation = 1;
}

abbrev before : Ledger
before = record ledger {
  artifacts =
      ("h0", record { kind = prompt; content = "h0"; policy = not_json })
      ∷ ("h1", record { kind = policy; content = "h1"; policy = not_json })
      ∷ ("h2", record { kind = policy; content = "h2"; policy = not_json })
      ∷ [];
  cohorts =
      (
        "g1",
        record {
          status = active;
          starting_bankroll = dec 100 0;
          baseline_window_seconds = 600;
          frozen_cap = unreadable;
          code_version = "v1";
          started_at = 10;
          closed_at = none;
        },
      )
      ∷ [];
  portfolios = [];
  tickets = [];
}

ensure_cohort-Ensuring_example :
    Ensuring hashes ids
      (dec 50 0)
      60
      identity
      before
      (ensure_cohort hashes ids (dec 50 0) 60 identity "v2" before)
ensure_cohort-Ensuring_example =
    ensure_cohort-Ensuring hashes ids (dec 50 0) 60 identity "v2" before (omega arith)

-- The new cohort is opened.
opens_cohort : (ensure_cohort hashes ids (dec 50 0) 60 identity "v2" before).0 ≡ ok "g2"
unfolding ensure_cohort transaction validate_identity stores_artifacts has_artifact lookup insert
    update sort append_cash_entry append_journal lt le eq add mul text_before
opens_cohort = refl
