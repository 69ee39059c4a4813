-- ===== src/Predict/Tickets/Refused.antt =====
-- What recording a refusal writes.
use japan_agent.Base.{
  ℕ, ◌≡◌, subst, true, false, not, is_some, [], ◌∷◌, ◌++◌, String, str_eq, ok, not-true,
}
use japan_agent.Base.Exec.{gets, lift, ◌>>=◌, ◌>>◌, raise_if}
use japan_agent.Base.Exec.Inversion.{>>=-eq-ok, lift-eq-ok, raise_if-eq-ok}
use japan_agent.Time.{Instant}
use japan_agent.Predict.Ledger.{
  Portfolio, Cohort, Forecast, Decision, refused as refused_for, decision_refused, Ledger,
  no_reason, already_decided, needs_baseline, Hashes, append_journal, append_journal-eq-ok,
}
use japan_agent.Predict.Tickets.{portfolio_of, is_decided, find_forecast, find_baseline}
use japan_agent.Predict.Tickets.Open.{insert_decision}
use japan_agent.Predict.Tickets.Opened.{insert_decision-eq-ok}
use japan_agent.Predict.Tickets.Refuse.{entry_forecast, record_refusal_locked}

abbrev pub refusal_of : String → ℕ → Forecast → String → Instant → Decision
refusal_of portfolio_id forecast_id f reason now = record {
  portfolio_id = portfolio_id;
  forecast_id = forecast_id;
  condition_id = f.values.condition_id;
  kind = refused_for reason;
  decided_at = now;
}

module _ (hashes : Hashes) (portfolio_id : String) (forecast_id : ℕ) (now : Instant) where
  -- A decision that refuses an entry forecast of the portfolio's cohort, which has a baseline; it is
  -- all that is written besides the journal.
  pub record IsRefusal (reason : String) (l l' : Ledger) : Type 0 where
    pub row : Portfolio × Cohort
    pub forecast : Forecast
    pub owner : portfolio_of portfolio_id l ≡ ok row
    pub forecasted : entry_forecast row.0 (find_forecast forecast_id l.forecasts) ≡ ok forecast
    pub undecided : is_decided portfolio_id forecast_id l ≡ false
    pub based : is_some (find_baseline forecast_id l.baselines) ≡ true
    pub written : l' ≡ record l {
      decisions = l.decisions ++ refusal_of portfolio_id forecast_id forecast reason now ∷ [];
      journal = l'.journal;
    }

  -- A refusal that is recorded is one.
  pub record_refusal_locked-IsRefusal :
      (reason : String) (l : Ledger) {u : Unit {0}} {l' : Ledger}
      → record_refusal_locked hashes portfolio_id forecast_id reason now l ≡ (ok u, l')
      → IsRefusal reason l l'
  unfolding record_refusal_locked
  record_refusal_locked-IsRefusal reason l {u} {l'} h =
      let journaled =
        append_journal hashes (decision_refused portfolio_id forecast_id reason) now in
      let write = λ (f : Forecast).
        insert_decision (refusal_of portfolio_id forecast_id f reason now) >> journaled in
      let based = λ (m : Ledger) (f : Forecast).
        raise_if (not (is_some (find_baseline forecast_id m.baselines))) needs_baseline
        >> write f in
      let checks = λ (m : Ledger) (f : Forecast).
        raise_if (is_decided portfolio_id forecast_id m) already_decided >> based m f in
      let from = λ (m : Ledger) (row : Portfolio × Cohort).
        lift (entry_forecast row.0 (find_forecast forecast_id m.forecasts)) >>= checks m in
      let found = λ (m : Ledger). lift (portfolio_of portfolio_id m) >>= from m in
      let (_, h1) =
        raise_if-eq-ok (str_eq reason "") no_reason (λ _. gets (λ m. m) >>= found) l h in
      let (row, owner, h2) = lift-eq-ok (portfolio_of portfolio_id l) (from l) l h1 in
      let (f, forecasted, h3) =
        lift-eq-ok (entry_forecast row.0 (find_forecast forecast_id l.forecasts)) (checks l) l h2 in
      let (undecided, h4) = raise_if-eq-ok _ already_decided (λ _. based l f) l h3 in
      let (based, h5) = raise_if-eq-ok _ needs_baseline (λ _. write f) l h4 in
      let (_, l1, inserted, h6) =
        >>=-eq-ok (insert_decision (refusal_of portfolio_id forecast_id f reason now))
          (λ _. journaled) l h5 in
      let (_, decided) =
        insert_decision-eq-ok (refusal_of portfolio_id forecast_id f reason now) l inserted in
      record {
        row = row;
        forecast = f;
        owner = owner;
        forecasted = forecasted;
        undecided = undecided;
        based = not-true _ based;
        written =
            subst (λ (w : Ledger). l' ≡ record w { journal = l'.journal }) decided
              (append_journal-eq-ok hashes (decision_refused portfolio_id forecast_id reason) now l1
                h6);
      }
