-- ===== src/Predict/Tickets/Backed.antt =====
-- What backs a ticket that is opened.
use japan_agent.Base.{
  ℕ, ◌≡◌, refl, subst, ◌∙◌, ap, Bool, true, false, not, ◌||◌, Option, none, some, String, str_eq,
  str_eq_iff, Result, ok, >>=-eq-ok, guard-eq-ok, ok-injective, not-true, Option-cases, inl, inr,
  arith,
}
use japan_agent.Base.Table.{lookup}
use japan_agent.Predict.Outcome.{Outcome}
use japan_agent.Predict.Ledger.{
  Portfolio, Cohort, is_entry, Forecast, Baseline, Ledger, LedgerError,
}
use japan_agent.Predict.Tickets.{
  TicketDraft, portfolio_of, is_decided, find_forecast, find_baseline, is_active, check_forecast,
  side_is, refuse_if, check_draft,
}

-- What backs a draft: an active cohort, the portfolio's policy, an undecided entry forecast of the
-- cohort and the market that was not abstained, with the draft's rules, and a baseline whose
-- snapshot of the side is the draft's.
pub record IsBacked (d : TicketDraft) (l : Ledger) : Type 0 where
  pub portfolio : Portfolio
  pub cohort : Cohort
  pub forecast : Forecast
  pub baseline : Baseline
  pub known : lookup d.portfolio_id l.portfolios ≡ some portfolio
  pub member : lookup portfolio.cohort_id l.cohorts ≡ some cohort
  pub running : is_active cohort.status ≡ true
  pub same_policy : d.policy_hash ≡ portfolio.policy_hash
  pub forecasted : find_forecast d.forecast_id l.forecasts ≡ some forecast
  pub same_cohort : forecast.values.cohort_id ≡ portfolio.cohort_id
  pub same_market : forecast.values.condition_id ≡ d.condition_id
  pub an_entry : is_entry forecast.values.kind ≡ true
  pub forecast_made : forecast.values.abstained ≡ false
  pub same_rules : forecast.values.rules_hash ≡ d.rules_hash
  pub undecided : is_decided d.portfolio_id d.forecast_id l ≡ false
  pub based : find_baseline d.forecast_id l.baselines ≡ some baseline
  pub same_snapshot : side_is d.outcome d.snapshot_id (some baseline) ≡ true

portfolio_of-eq-ok :
    (id : String) (l : Ledger) (p : Portfolio) (c : Cohort)
    → portfolio_of id l ≡ ok (p, c)
    → (lookup id l.portfolios ≡ some p) × (lookup p.cohort_id l.cohorts ≡ some c)
unfolding portfolio_of
portfolio_of-eq-ok id l p c h = elim (Option-cases (lookup id l.portfolios)) [
  | inl missing ↦ absurd (cc (rw (missing, portfolio_of) at h))
  | inr (q, known) ↦ elim (Option-cases (lookup q.cohort_id l.cohorts)) [
    | inl missing ↦ absurd (cc (rw (missing) at (rw (known, portfolio_of) at h)))
    | inr (e, member) ↦
        let same : (q ≡ p) × (e ≡ c) = pair (rw (member) at (rw (known, portfolio_of) at h)) in
        (
          known ∙ ap some same.0,
          subst (λ (r : Portfolio). lookup r.cohort_id l.cohorts ≡ some e) same.0 member
              ∙ ap some same.1,
        )
  ]
]
  where
    pair :
        {q : Portfolio} {e : Cohort}
        → ◌≡◌ {A = Result LedgerError (Portfolio × Cohort)} (ok (q, e)) (ok (p, c))
        → (q ≡ p) × (e ≡ c)
    pair h = (
      ap (λ (r : Portfolio × Cohort). r.0) (ok-injective h),
      ap (λ (r : Portfolio × Cohort). r.1) (ok-injective h),
    )

refuse_if-eq-ok : (b : Bool) (e : LedgerError) {u : Unit {0}} → refuse_if b e ≡ ok u → b ≡ false
refuse_if-eq-ok true e h = absurd (cc h)
refuse_if-eq-ok false e h = refl

or_false : (a b : Bool) → a || b ≡ false → (a ≡ false) × (b ≡ false)
or_false a b h = ground arith

-- What the check of the forecast grants.
record IsForecast (d : TicketDraft) (p : Portfolio) (f : Forecast) : Type 0 where
  pub same_cohort : f.values.cohort_id ≡ p.cohort_id
  pub same_market : f.values.condition_id ≡ d.condition_id
  pub an_entry : is_entry f.values.kind ≡ true
  pub forecast_made : f.values.abstained ≡ false
  pub same_rules : f.values.rules_hash ≡ d.rules_hash

same : (a b : String) → not (str_eq a b) ≡ false → a ≡ b
same a b h = (str_eq_iff a b).0 (not-true _ h)

check_forecast-IsForecast :
    (d : TicketDraft) (p : Portfolio) (f : Forecast) {u : Unit {0}}
    → check_forecast d p (some f) ≡ ok u
    → IsForecast d p f
unfolding check_forecast
check_forecast-IsForecast d p f h =
    let (fits, h1) =
      guard-eq-ok
        (not (str_eq f.values.cohort_id p.cohort_id)
          || (not (str_eq f.values.condition_id d.condition_id)
              || (not (is_entry f.values.kind) || f.values.abstained)))
        _ _ h in
    let (rules, _) = guard-eq-ok (not (str_eq f.values.rules_hash d.rules_hash)) _ _ h1 in
    let (cohort, fits1) = or_false _ _ fits in
    let (market, fits2) = or_false _ _ fits1 in
    let (entry, made) = or_false _ _ fits2 in
    record {
      same_cohort = same _ _ cohort;
      same_market = same _ _ market;
      an_entry = not-true _ entry;
      forecast_made = made;
      same_rules = same _ _ rules;
    }

check_forecast-some :
    (d : TicketDraft) (p : Portfolio) (o : Option Forecast) {u : Unit {0}}
    → check_forecast d p o ≡ ok u
    → (f : Forecast) × (o ≡ some f) × IsForecast d p f
unfolding check_forecast
check_forecast-some d p none h = absurd (cc h)
check_forecast-some d p (some f) h = (f, refl, check_forecast-IsForecast d p f h)

side_is-some :
    (side : Outcome) (id : ℕ) (o : Option Baseline)
    → side_is side id o ≡ true
    → (b : Baseline) × (o ≡ some b) × (side_is side id (some b) ≡ true)
unfolding side_is
side_is-some side id none h = absurd (cc h)
side_is-some side id (some b) h = (b, refl, h)

pub check_draft-IsBacked :
    (d : TicketDraft) (l : Ledger) {u : Unit {0}} → check_draft d l ≡ ok u → IsBacked d l
unfolding check_draft
check_draft-IsBacked d l h =
    let (row, found, h1) = >>=-eq-ok (portfolio_of d.portfolio_id l) _ h in
    let (_, running, h2) = >>=-eq-ok (refuse_if (not (is_active row.1.status)) _) _ h1 in
    let (_, policy, h3) =
      >>=-eq-ok (refuse_if (not (str_eq d.policy_hash row.0.policy_hash)) _) _ h2 in
    let (_, forecast, h4) =
      >>=-eq-ok (check_forecast d row.0 (find_forecast d.forecast_id l.forecasts)) _ h3 in
    let (_, undecided, h5) =
      >>=-eq-ok (refuse_if (is_decided d.portfolio_id d.forecast_id l) _) _ h4 in
    let (f, forecasted, is_forecast) =
      check_forecast-some d row.0 (find_forecast d.forecast_id l.forecasts) forecast in
    let (b, based, sided) =
      side_is-some d.outcome d.snapshot_id (find_baseline d.forecast_id l.baselines)
        (not-true _ (refuse_if-eq-ok _ _ h5)) in
    let (known, member) = portfolio_of-eq-ok d.portfolio_id l row.0 row.1 found in
    record {
      portfolio = row.0;
      cohort = row.1;
      forecast = f;
      baseline = b;
      known = known;
      member = member;
      running = not-true _ (refuse_if-eq-ok _ _ running);
      same_policy = same _ _ (refuse_if-eq-ok _ _ policy);
      forecasted = forecasted;
      same_cohort = is_forecast.same_cohort;
      same_market = is_forecast.same_market;
      an_entry = is_forecast.an_entry;
      forecast_made = is_forecast.forecast_made;
      same_rules = is_forecast.same_rules;
      undecided = refuse_if-eq-ok _ _ undecided;
      based = based;
      same_snapshot = sided;
    }
