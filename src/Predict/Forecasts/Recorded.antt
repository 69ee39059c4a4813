-- ===== src/Predict/Forecasts/Recorded.antt =====
-- What recording a forecast checks and writes.
use japan_agent.Base.{
  ℕ, suc, ◌≤◌, ◌≡◌, refl, subst, sym, ◌∙◌, ap, Bool, true, false, not, ◌&&◌, ◌||◌, Option, none,
  some, [], ◌∷◌, ◌++◌, map, String, str_eq, str_eq_iff, Result, ok, err, >>=-eq-ok, guard-eq-ok,
  not-true, ltb, ltb→le, any, length, Bool-cases, Result-cases, inl, inr, arith,
}
use japan_agent.Base.Exec.{pure, ◌>>◌}
use japan_agent.Base.Exec.Inversion.{>>=-eq-ok as run-eq-ok, lift-eq-ok, outcome-eq}
use japan_agent.Time.{Instant}
use japan_agent.Predict.Ledger.{
  is_entry, is_started, succeeded, Attempt, ForecastRecord, research_input, tool_transcript,
  forecast_recorded, Cohort, JournalPayload, Ledger, LedgerError, Hashes, append_journal,
  append_journal-eq-ok, transaction-cases,
}
use japan_agent.Predict.Tickets.{refuse_if}
use japan_agent.Predict.Forecasts.{validate_forecast}
use japan_agent.Predict.Forecasts.Valid.{IsValid, validate_forecast-IsValid}
use japan_agent.Predict.Forecasts.Attempts.{
  active_cohort_row, find_attempt, finish_row, finish_attempt,
}
use japan_agent.Predict.Forecasts.Record.{
  same_kind, has_artifact, check_attempt, is_version, enters, check_record,
}
use japan_agent.Predict.Forecasts.Write.{
  new_forecast, forecast_clashes, insert_forecast, write_forecast, record_locked, record_forecast,
}

-- The STARTED attempt of a forecast.
pub record IsAttemptOf (r : ForecastRecord) (now : Instant) (a : Attempt) : Type 0 where
  pub begun : is_started a.status ≡ true
  pub same_cohort : a.cohort_id ≡ r.cohort_id
  pub same_market : a.condition_id ≡ r.condition_id
  pub same_kind_of : same_kind a.kind r.kind ≡ true
  pub not_younger : a.started_at ≤ now

neither : (a b : Bool) → a || b ≡ false → (a ≡ false) × (b ≡ false)
neither a b h = ground arith

same : (a b : String) → not (str_eq a b) ≡ false → a ≡ b
same a b h = (str_eq_iff a b).0 (not-true _ h)

check_attempt-IsAttemptOf :
    (r : ForecastRecord) (now : Instant) (o : Option Attempt) {u : Unit {0}}
    → check_attempt r now o ≡ ok u
    → (a : Attempt) × (o ≡ some a) × IsAttemptOf r now a
unfolding check_attempt
check_attempt-IsAttemptOf r now none h = absurd (cc h)
check_attempt-IsAttemptOf r now (some a) h =
    let (fits, h1) =
      guard-eq-ok
        (not (is_started a.status)
          || (not (str_eq a.cohort_id r.cohort_id)
              || (not (str_eq a.condition_id r.condition_id) || not (same_kind a.kind r.kind))))
        _ _ h in
    let (begun, f1) = neither _ _ fits in
    let (cohort, f2) = neither _ _ f1 in
    let (market, kind) = neither _ _ f2 in
    (
      a,
      refl,
      record {
        begun = not-true _ begun;
        same_cohort = same _ _ cohort;
        same_market = same _ _ market;
        same_kind_of = not-true _ kind;
        not_younger = ltb→le now a.started_at (guard-eq-ok (ltb now a.started_at) _ _ h1).0;
      },
    )

pub record IsRecorded (hashes : Hashes) (r : ForecastRecord) (now : Instant) (l : Ledger) (id : ℕ)
    (l' : Ledger) : Type 0 where
  pub cohort : Cohort
  pub attempt : Attempt
  pub valid : IsValid r
  pub running : active_cohort_row r.cohort_id l ≡ ok cohort
  pub attempted : find_attempt r.attempt_id l.attempts ≡ some attempt
  pub attempt_of : IsAttemptOf r now attempt
  pub known_rules : any (is_version r.condition_id r.rules_hash) l.rules ≡ true
  pub stored :
      (has_artifact research_input r.research_input_hash l ≡ true)
      × (has_artifact tool_transcript r.transcript_hash l ≡ true)
  pub first_entry : is_entry r.kind && any (enters r.cohort_id r.condition_id) l.forecasts ≡ false
  pub next_id : id ≡ suc (length l.forecasts)
  pub written : l' ≡ record l {
    forecasts = l.forecasts ++ new_forecast hashes r now l ∷ [];
    attempts = map (finish_row r.attempt_id succeeded now r.cost_usd none) l.attempts;
    journal = l'.journal;
  }

insert_forecast-eq-ok :
    (hashes : Hashes) (r : ForecastRecord) (now : Instant) (l : Ledger) {id : ℕ} {l' : Ledger}
    → insert_forecast hashes r now l ≡ (ok id, l')
    → (id ≡ suc (length l.forecasts))
      × (l' ≡ record l { forecasts = l.forecasts ++ new_forecast hashes r now l ∷ [] })
unfolding insert_forecast
insert_forecast-eq-ok hashes r now l h =
    elim (Bool-cases (any (forecast_clashes r (hashes.forecast r now)) l.forecasts)) [
      | inl known ↦ absurd (cc (ap (λ r. r.0) (rw (known, insert_forecast) at h)))
      | inr new ↦
          let (same_id, same_l) = outcome-eq (rw (new, insert_forecast) at h) in
          (sym same_id, sym same_l)
    ]

module _ (hashes : Hashes) (r : ForecastRecord) (now : Instant) where
  abbrev payload_of : ℕ → JournalPayload
  payload_of id =
      forecast_recorded id r.attempt_id r.cohort_id r.condition_id r.kind (hashes.forecast r now)

  write_forecast-eq-ok :
      (l : Ledger) {id : ℕ} {l' : Ledger}
      → write_forecast hashes r now l ≡ (ok id, l')
      → (id ≡ suc (length l.forecasts))
        × (l' ≡ record l {
          forecasts = l.forecasts ++ new_forecast hashes r now l ∷ [];
          attempts = map (finish_row r.attempt_id succeeded now r.cost_usd none) l.attempts;
          journal = l'.journal;
        })
  unfolding write_forecast finish_attempt
  write_forecast-eq-ok l {id} {l'} h =
      let (n, l1, inserted, h1) =
        run-eq-ok (insert_forecast hashes r now)
          (λ n.
            finish_attempt r.attempt_id succeeded now r.cost_usd none
            >> (append_journal hashes (payload_of n) now >> pure n))
          l h in
      let (numbered, added) = insert_forecast-eq-ok hashes r now l inserted in
      let l2 : Ledger = record l1 {
        attempts = map (finish_row r.attempt_id succeeded now r.cost_usd none) l1.attempts;
      } in
      let (_, l3, journaled, h2) =
        run-eq-ok (append_journal hashes (payload_of n) now) (λ _. pure n) l2 h1 in
      let (same_id, same_l) = outcome-eq h2 in
      (
        sym same_id ∙ numbered,
        subst
            (λ (w : Ledger). l' ≡ record w {
              attempts = map (finish_row r.attempt_id succeeded now r.cost_usd none) w.attempts;
              journal = l'.journal;
            })
            added
            (subst (λ (w : Ledger). w ≡ record l2 { journal = w.journal }) same_l
              (append_journal-eq-ok hashes (payload_of n) now l2 journaled)),
      )

  record_locked-IsRecorded :
      (l : Ledger) {id : ℕ} {l' : Ledger}
      → IsValid r
      → record_locked hashes r now l ≡ (ok id, l')
      → IsRecorded hashes r now l id l'
  unfolding record_locked check_record
  record_locked-IsRecorded l valid h =
      let (_, checked, h1) =
        lift-eq-ok (check_record r now l) (λ _. write_forecast hashes r now) l h in
      let (cohort, running, c1) = >>=-eq-ok (active_cohort_row r.cohort_id l) _ checked in
      let (_, attempted, c2) =
        >>=-eq-ok (check_attempt r now (find_attempt r.attempt_id l.attempts)) _ c1 in
      let (_, rules, c3) =
        >>=-eq-ok (refuse_if (not (any (is_version r.condition_id r.rules_hash) l.rules)) _) _ c2 in
      let (_, stored, c4) =
        >>=-eq-ok
          (refuse_if
            (not (has_artifact research_input r.research_input_hash l)
              || not (has_artifact tool_transcript r.transcript_hash l))
            _)
          _ c3 in
      let (input, transcript) = neither _ _ (guard-eq-ok _ _ _ stored).0 in
      let (a, found, attempt_of) = check_attempt-IsAttemptOf r now _ attempted in
      let (next_id, written) = write_forecast-eq-ok l h1 in
      record {
        cohort = cohort;
        attempt = a;
        valid = valid;
        running = running;
        attempted = found;
        attempt_of = attempt_of;
        known_rules = not-true _ (guard-eq-ok _ _ _ rules).0;
        stored = (not-true _ input, not-true _ transcript);
        first_entry = (guard-eq-ok _ _ _ c4).0;
        next_id = next_id;
        written = written;
      }

  -- How recording a forecast ends.
  abbrev pub Recording : Ledger → Result LedgerError ℕ × Ledger → Type 0
  Recording l (err e, l') = l' ≡ l
  Recording l (ok id, l') = IsRecorded hashes r now l id l'

  -- Recording a forecast either raises and leaves the ledger as it was, or the forecast is valid, its
  -- cohort is active, its attempt is STARTED, its rules version and artifacts are stored, no entry
  -- forecast of the cohort for the market came before if it is one, and what is written, besides the
  -- journal, is the forecast and the attempt as SUCCEEDED with the forecast's cost.
  pub record_forecast-Recording : (l : Ledger) → Recording l (record_forecast hashes r now l)
  unfolding record_forecast
  record_forecast-Recording l = elim (Result-cases (validate_forecast r)) [
    | inr (e, invalid) ↦ rw (invalid, record_forecast) refl
    | inl (_, valid) ↦
        rw (valid, record_forecast)
          (elim (transaction-cases (record_locked hashes r now) l) [
            | inl (e, rolled) ↦ subst (Recording l) (sym rolled) refl
            | inr (id, l', run, committed) ↦
                subst (Recording l) (sym committed)
                  (record_locked-IsRecorded l (validate_forecast-IsValid r valid) run)
          ])
  ]
