-- ===== src/Predict/Paper/Decided.antt =====
-- What the decision of a portfolio writes.
use japan_agent.Base.{
  ℕ, ◌≡◌, refl, subst, sym, true, false, String, Result, ok, err, map_err, map_err-eq-ok,
  Bool-cases, ◌⊎◌, inl, inr,
}
use japan_agent.Base.Exec.{pure, lift, ◌>>=◌}
use japan_agent.Base.Exec.Inversion.{>>=-eq-ok, lift-eq-ok, outcome-eq}
use japan_agent.Time.{Instant}
use japan_agent.Predict.Params.{PolicyParams}
use japan_agent.Predict.Policy.{
  PolicyInputs, Trade, Reason, cohort_closed, Decided, traded, refused,
}
use japan_agent.Predict.Policy.Decide.{decide}
use japan_agent.Predict.Ledger.{
  Portfolio, Cohort, Forecast, Ledger, LedgerError, policy_failed, Hashes, transaction-cases,
}
use japan_agent.Predict.Tickets.{portfolio_of, is_decided, is_active}
use japan_agent.Predict.Tickets.Open.{open_ticket_locked}
use japan_agent.Predict.Tickets.Opened.{IsOpened, open_ticket_locked-IsOpened}
use japan_agent.Predict.Tickets.Refuse.{record_refusal_locked}
use japan_agent.Predict.Tickets.Refused.{IsRefusal, record_refusal_locked-IsRefusal}
use japan_agent.Predict.Paper.{load_inputs, policy_at}
use japan_agent.Predict.Paper.Decide.{
  reason_text, DecisionResult, skipped, declined, bought, draft_of, known_forecast, decline, buy,
  carry_out, decide_now, decide_row, decide_locked, decide_portfolio,
}

module _ (hashes : Hashes) (portfolio_id : String) (forecast_id : ℕ) (now : Instant) where
  decline-eq-ok :
      (reason : Reason) (l : Ledger) {r : DecisionResult} {l' : Ledger}
      → decline hashes portfolio_id forecast_id now reason l ≡ (ok r, l')
      → (r ≡ declined reason)
        × IsRefusal hashes portfolio_id forecast_id now (reason_text reason) l l'
  unfolding decline
  decline-eq-ok reason l {r} {l'} h =
      let (_, l1, recorded, h1) =
        >>=-eq-ok (record_refusal_locked hashes portfolio_id forecast_id (reason_text reason) now)
          (λ _. pure (declined reason)) l h in
      let (same, same_l) = outcome-eq h1 in
      (
        sym same,
        subst (IsRefusal hashes portfolio_id forecast_id now (reason_text reason) l) same_l (
            record_refusal_locked-IsRefusal hashes portfolio_id forecast_id now (reason_text reason)
              l recorded),
      )

  -- What the policy of an active portfolio makes of the ledger, for an undecided forecast.
  pub record IsWeighed (p : Portfolio) (l : Ledger) (d : Decided) : Type 0 where
    pub params : PolicyParams
    pub inputs : PolicyInputs
    pub configured : policy_at hashes p.policy_hash l ≡ ok params
    pub loaded : load_inputs portfolio_id forecast_id now l ≡ ok inputs
    pub decided : decide inputs params ≡ ok d

  -- The forecast is known and a ticket is opened for the trade.
  pub record IsBought (p : Portfolio) (t : Trade) (id : ℕ) (l l' : Ledger) : Type 0 where
    pub forecast : Forecast
    pub forecasted : known_forecast forecast_id l ≡ ok forecast
    pub opened : IsOpened hashes (draft_of portfolio_id forecast_id p forecast t) now l id l'

  buy-eq-ok :
      (p : Portfolio) (t : Trade) (l : Ledger) {r : DecisionResult} {l' : Ledger}
      → buy hashes portfolio_id forecast_id now p t l ≡ (ok r, l')
      → (id : ℕ) × (r ≡ bought id) × IsBought p t id l l'
  unfolding buy
  buy-eq-ok p t l {r} {l'} h =
      let open_for = λ (f : Forecast).
        open_ticket_locked hashes (draft_of portfolio_id forecast_id p f t) now >>= λ id.
        pure (bought id) in
      let (f, found, h1) = lift-eq-ok (known_forecast forecast_id l) open_for l h in
      let d = draft_of portfolio_id forecast_id p f t in
      let (id, l1, opened, h2) =
        >>=-eq-ok (open_ticket_locked hashes d now) (λ id. pure (bought id)) l h1 in
      let (same, same_l) = outcome-eq h2 in
      (
        id,
        sym same,
        record {
          forecast = f;
          forecasted = found;
          opened =
              subst (IsOpened hashes d now l id) same_l
                (open_ticket_locked-IsOpened hashes d now l opened);
        },
      )

  decide_now-eq-ok :
      (p : Portfolio) (l : Ledger) {r : DecisionResult} {l' : Ledger}
      → decide_now hashes portfolio_id forecast_id now p l ≡ (ok r, l')
      → (d : Decided) × IsWeighed p l d
        × (carry_out hashes portfolio_id forecast_id now p d l ≡ (ok r, l'))
  unfolding decide_now
  decide_now-eq-ok p l h =
      let finish = carry_out hashes portfolio_id forecast_id now p in
      let weigh = λ (params : PolicyParams) (inputs : PolicyInputs).
        lift (map_err (λ _. policy_failed) (decide inputs params)) >>= finish in
      let load = λ (params : PolicyParams).
        lift (load_inputs portfolio_id forecast_id now l) >>= weigh params in
      let (params, configured, h1) = lift-eq-ok (policy_at hashes p.policy_hash l) load l h in
      let (inputs, loaded, h2) =
        lift-eq-ok (load_inputs portfolio_id forecast_id now l) (weigh params) l h1 in
      let (d, decided, h3) =
        lift-eq-ok (map_err (λ _. policy_failed) (decide inputs params)) finish l h2 in
      (
        d,
        record {
          params = params;
          inputs = inputs;
          configured = configured;
          loaded = loaded;
          decided = map_err-eq-ok _ (decide inputs params) decided;
        },
        h3,
      )

  -- Why a forecast is refused: the cohort is closed, or the policy refuses.
  pub Refuses : Portfolio × Cohort → Reason → Ledger → Type 0
  Refuses row reason l =
      ((reason ≡ cohort_closed) × (is_active row.1.status ≡ false))
      ⊎ ((is_active row.1.status ≡ true) × IsWeighed row.0 l (refused reason))

  -- How the decision of a portfolio ends.
  abbrev pub Deciding : Ledger → Result LedgerError DecisionResult × Ledger → Type 0
  Deciding l (err e, l') = l' ≡ l
  Deciding l (ok skipped, l') = (is_decided portfolio_id forecast_id l ≡ true) × (l' ≡ l)
  Deciding l (ok (declined reason), l') =
      (row : Portfolio × Cohort) × (portfolio_of portfolio_id l ≡ ok row)
      × Refuses row reason l
      × IsRefusal hashes portfolio_id forecast_id now (reason_text reason) l l'
  Deciding l (ok (bought id), l') =
      (row : Portfolio × Cohort) × (t : Trade) × (portfolio_of portfolio_id l ≡ ok row)
      × (is_active row.1.status ≡ true)
      × IsWeighed row.0 l (traded t)
      × IsBought row.0 t id l l'

  carried :
      (row : Portfolio × Cohort) (d : Decided) (l : Ledger) {r : DecisionResult} {l' : Ledger}
      → portfolio_of portfolio_id l ≡ ok row
      → is_active row.1.status ≡ true
      → IsWeighed row.0 l d
      → carry_out hashes portfolio_id forecast_id now row.0 d l ≡ (ok r, l')
      → Deciding l (ok r, l')
  unfolding carry_out Refuses
  carried row (refused reason) l {r} {l'} owner active weighed h =
      let (same, written) = decline-eq-ok reason l h in
      subst (λ (x : DecisionResult). Deciding l (ok x, l')) (sym same)
        (row, owner, inr (active, weighed), written)
  carried row (traded t) l {r} {l'} owner active weighed h =
      let (id, same, written) = buy-eq-ok row.0 t l h in
      subst (λ (x : DecisionResult). Deciding l (ok x, l')) (sym same)
        (row, t, owner, active, weighed, written)

  decide_row-Deciding :
      (row : Portfolio × Cohort) (l : Ledger) {r : DecisionResult} {l' : Ledger}
      → portfolio_of portfolio_id l ≡ ok row
      → decide_row hashes portfolio_id forecast_id now (is_decided portfolio_id forecast_id l) row l
        ≡ (ok r, l')
      → Deciding l (ok r, l')
  unfolding decide_row Refuses
  decide_row-Deciding row l {r} {l'} owner h =
      elim (Bool-cases (is_decided portfolio_id forecast_id l)) [
        | inl known ↦
            let (same, same_l) = outcome-eq (rw (known, decide_row) at h) in
            subst (λ (x : DecisionResult). Deciding l (ok x, l')) same (known, sym same_l)
        | inr new ↦ elim (Bool-cases (is_active row.1.status)) [
          | inl active ↦
              let (d, weighed, run) =
                decide_now-eq-ok row.0 l (rw (new, active, decide_row) at h) in
              carried row d l owner active weighed run
          | inr closed ↦
              let (same, written) =
                decline-eq-ok cohort_closed l (rw (new, closed, decide_row) at h) in
              subst (λ (x : DecisionResult). Deciding l (ok x, l')) (sym same)
                (row, owner, inl (refl, closed), written)
        ]
      ]

  decide_locked-Deciding :
      (l : Ledger) {r : DecisionResult} {l' : Ledger}
      → decide_locked hashes portfolio_id forecast_id now l ≡ (ok r, l')
      → Deciding l (ok r, l')
  unfolding decide_locked
  decide_locked-Deciding l h =
      let (row, owner, run) =
        lift-eq-ok (portfolio_of portfolio_id l)
          (λ row.
            decide_row hashes portfolio_id forecast_id now (is_decided portfolio_id forecast_id l)
              row)
          l h in
      decide_row-Deciding row l owner run

  -- The decision of a portfolio on a forecast ends in one of four ways: it raises, and the ledger is
  -- as before; the forecast was decided, and nothing is written; it is refused, since the cohort is
  -- closed or since the policy that is stored for the portfolio refuses what the ledger holds, and one
  -- refusal is written; or that policy trades, and the ticket of that trade is opened.
  pub decide_portfolio-Deciding :
      (l : Ledger) → Deciding l (decide_portfolio hashes portfolio_id forecast_id now l)
  unfolding decide_portfolio
  decide_portfolio-Deciding l =
      elim (transaction-cases (decide_locked hashes portfolio_id forecast_id now) l) [
        | inl (e, rolled) ↦ subst (Deciding l) (sym rolled) refl
        | inr (r, l', run, committed) ↦
            subst (Deciding l) (sym committed) (decide_locked-Deciding l run)
      ]
