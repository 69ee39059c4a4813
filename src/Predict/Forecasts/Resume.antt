-- ===== src/Predict/Forecasts/Resume.antt =====
-- predict_agent/forecasts.py: what a forecast still needs.
use japan_agent.Base.{
  ℕ, ◌+◌, Bool, true, false, not, ◌&&◌, none, some, List, [], ◌∷◌, map, String, str_eq, Result, ok,
  err, if◌then◌else◌, ltb, filter,
}
use japan_agent.Base.Table.{Table, lookup}
use japan_agent.Base.Text.{text_before}
use japan_agent.Base.Sort.{sort}
use japan_agent.Time.{Instant, seconds}
use japan_agent.Predict.Ledger.{
  Portfolio, is_entry, Forecast, BaselineSides, snapshots, no_baseline, Ledger, LedgerError,
  unknown_forecast,
}
use japan_agent.Predict.Tickets.{find_forecast, find_baseline, is_decided}

-- `_forecast_row`: the forecast, and its cohort's window in seconds.
unfoldable pub forecast_row : ℕ → Ledger → Result LedgerError (Forecast × ℕ)
unfolding find_forecast
forecast_row id l = elim (find_forecast id l.forecasts) [
  | none ↦ err unknown_forecast
  | some f ↦ elim (lookup f.values.cohort_id l.cohorts) [
    | none ↦ err unknown_forecast
    | some c ↦ ok (f, c.baseline_window_seconds)
  ]
]

abbrev pub baseline_deadline : Forecast × ℕ → Instant
baseline_deadline row = row.0.created_at + seconds row.1

-- The portfolios of a cohort that have no decision on a forecast.
unfoldable pub undecided_in : String → ℕ → Ledger → Table Portfolio → Table Portfolio
undecided_in cohort_id id l [] = []
undecided_in cohort_id id l ((key, p) ∷ rows) =
    let rest = undecided_in cohort_id id l rows in
    if str_eq p.cohort_id cohort_id && not (is_decided key id l) then (key, p) ∷ rest else rest

-- ORDER BY variant
abbrev pub by_variant : (String × Portfolio) → (String × Portfolio) → Bool
by_variant a b = text_before a.1.variant b.1.variant

unfoldable pub undecided_portfolios : ℕ → Ledger → List String
unfolding undecided_in find_forecast
undecided_portfolios id l = elim (find_forecast id l.forecasts) [
  | none ↦ []
  | some f ↦
      map (λ (row : String × Portfolio). row.0)
        (sort by_variant (undecided_in f.values.cohort_id id l l.portfolios))
]

pub data ResumeStep : Type 0 where
  step_baseline baseline_expired step_decision step_done : ResumeStep

abbrev pub is_none_left : List String → Bool
is_none_left [] = true
is_none_left (_ ∷ _) = false

-- The step of a forecast that has a baseline.
unfoldable pub step_of : Forecast → Ledger → BaselineSides → ResumeStep
unfolding undecided_portfolios
step_of f l (no_baseline _) = step_done
step_of f l (snapshots _ _) =
    if not (is_entry f.values.kind)
    then step_done
    else if is_none_left (undecided_portfolios f.forecast_id l)
    then step_done
    else step_decision

unfoldable pub resume_step : ℕ → Instant → Ledger → Result LedgerError ResumeStep
unfolding forecast_row find_baseline step_of
resume_step id now l = elim (forecast_row id l) [
  | err e ↦ err e
  | ok row ↦ elim (find_baseline id l.baselines) [
    | some b ↦ ok (step_of row.0 l b.sides)
    | none ↦ ok (if ltb (baseline_deadline row) now then baseline_expired else step_baseline)
  ]
]

abbrev pub is_unfinished : Result LedgerError ResumeStep → Bool
is_unfinished (ok step_done) = false
is_unfinished _ = true

-- The probe is the Unix epoch; an unknown forecast cannot be among the rows.
unfoldable pub unfinished_forecasts : Instant → String → Ledger → List ℕ
unfolding resume_step
unfinished_forecasts probe cohort_id l =
    map (λ (f : Forecast). f.forecast_id)
      (filter
        (λ (f : Forecast).
          str_eq f.values.cohort_id cohort_id && is_unfinished (resume_step f.forecast_id probe l))
        l.forecasts)
