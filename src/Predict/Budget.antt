-- ===== src/Predict/Budget.antt =====
-- predict_agent/budget.py: the limits on what research spends, and the attempts that a crash left.
pub mod Charged
pub mod Recovered
use japan_agent.Base.{
  ℕ, ◌+◌, suc, Bool, true, false, ◌&&◌, Option, none, some, List, [], ◌∷◌, map, String, Result, ok,
  err, if◌then◌else◌, ltb, leb, filter,
}
use japan_agent.Base.Decimal.{Decimal, dec, add, lt, le, max_of}
use japan_agent.Base.Table.{Table, lookup}
use japan_agent.Base.Exec.{Exec, pure, gets, ◌>>=◌, ◌>>◌}
use japan_agent.Time.{Instant, days, day_start}
use japan_agent.Predict.Gamma.{JsonDecimal, unreadable, not_finite, finite}
use japan_agent.Predict.Ledger.{
  Cohort, AttemptStatus, is_started, is_entry, Attempt, Ledger, LedgerError, Hashes,
}
use japan_agent.Predict.Forecasts.Attempts.{fail_attempt}

pub record DayUsage : Type 0 where
  pub spent_usd : Decimal
  pub entry_attempts : ℕ

-- `_frozen_cap`
unfoldable pub frozen_cap : JsonDecimal → Option Decimal
frozen_cap unreadable = none
frozen_cap not_finite = none
frozen_cap (finite cap) = if lt (dec 0 0) cap then some cap else none

-- The largest of a cap and the caps that the cohorts have frozen.
unfoldable pub highest_cap : Decimal → Table Cohort → Decimal
unfolding frozen_cap
highest_cap highest [] = highest
highest_cap highest ((_, c) ∷ rows) = elim (frozen_cap c.frozen_cap) [
  | none ↦ highest_cap highest rows
  | some cap ↦ highest_cap (max_of highest cap) rows
]

abbrev pub cap_or : Decimal → Option Decimal → Decimal
cap_or fallback none = fallback
cap_or fallback (some cap) = cap

-- The dictionary of `attempt_caps`, for a fallback.
unfoldable pub caps_with : Decimal → Table Cohort → Table Decimal
unfolding frozen_cap
caps_with fallback [] = []
caps_with fallback ((id, c) ∷ rows) =
    (id, cap_or fallback (frozen_cap c.frozen_cap)) ∷ caps_with fallback rows

unfoldable pub attempt_caps : Decimal → Ledger → Table Decimal
unfolding highest_cap caps_with
attempt_caps per_forecast l = caps_with (highest_cap per_forecast l.cohorts) l.cohorts

-- `max([per_forecast_usd, *caps.values()])`
unfoldable pub highest_of : Decimal → Table Decimal → Decimal
highest_of highest [] = highest
highest_of highest ((_, cap) ∷ rows) = highest_of (max_of highest cap) rows

-- `caps.get(cohort_id, fallback)`
abbrev pub cap_of : String → Decimal → Table Decimal → Decimal
cap_of id fallback caps = cap_or fallback (lookup id caps)

-- What an attempt is charged at; the cost of a finished attempt is never missing.
unfoldable pub charge : Table Decimal → Decimal → Attempt → Result LedgerError Decimal
charge caps fallback a =
    if is_started a.status
    then ok (cap_of a.cohort_id fallback caps)
    else elim a.cost_usd [ none ↦ err LedgerError.invalid_amount | some cost ↦ ok cost ]

abbrev pub on_day : Instant → Attempt → Bool
on_day now a = leb (day_start now) a.started_at && ltb a.started_at (day_start now + days 1)

-- The loop of `day_usage` over the attempts of the day.
unfoldable pub usage_from :
    Table Decimal → Decimal → DayUsage → List Attempt → Result LedgerError DayUsage
unfolding charge
usage_from caps fallback u [] = ok u
usage_from caps fallback u (a ∷ as') = elim (charge caps fallback a) [
  | err e ↦ err e
  | ok cost ↦
      usage_from caps fallback
        (record {
          spent_usd = add u.spent_usd cost;
          entry_attempts = if is_entry a.kind then suc u.entry_attempts else u.entry_attempts;
        })
        as'
]

unfoldable pub day_usage : Instant → Decimal → Ledger → Result LedgerError DayUsage
unfolding attempt_caps highest_of usage_from
day_usage now per_forecast l =
    let caps = attempt_caps per_forecast l in
    usage_from caps (highest_of per_forecast caps)
      (record { spent_usd = dec 0 0; entry_attempts = 0 }) (filter (on_day now) l.attempts)

pub data BudgetRefusal : Type 0 where
  over_budget over_volume : BudgetRefusal

unfoldable pub budget_refusal : DayUsage → Decimal → Decimal → ℕ → Option BudgetRefusal
budget_refusal u daily per_forecast max_entries =
    if lt daily (add u.spent_usd per_forecast)
    then some over_budget
    else if leb max_entries u.entry_attempts
    then some over_volume
    else none

-- The loop of `recover_interrupted_attempts`, over the rows that were STARTED at its start.
unfoldable pub recover_all :
    Hashes → Table Decimal → Decimal → Instant → List Attempt → Exec Ledger LedgerError (List ℕ)
recover_all hashes caps fallback now [] = pure []
recover_all hashes caps fallback now (a ∷ as') = do
  fail_attempt hashes a.attempt_id (cap_of a.cohort_id fallback caps) "INTERRUPTED" now
  rest ← recover_all hashes caps fallback now as'
  pure (a.attempt_id ∷ rest)

unfoldable pub recover_interrupted_attempts :
    Hashes → Decimal → Instant → Exec Ledger LedgerError (List ℕ)
unfolding attempt_caps highest_of recover_all
recover_interrupted_attempts hashes per_forecast now l =
    let caps = attempt_caps per_forecast l in
    recover_all hashes caps (highest_of per_forecast caps) now
      (filter (λ (a : Attempt). is_started a.status) l.attempts) l
