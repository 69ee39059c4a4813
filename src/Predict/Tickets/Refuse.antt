-- ===== src/Predict/Tickets/Refuse.antt =====
-- predict_agent/tickets.py: decisions that refuse, and the equity of a portfolio.
use japan_agent.Base.{
  ℕ, not, ◌&&◌, ◌||◌, Option, none, some, is_some, List, [], ◌∷◌, String, str_eq, Result, ok, err,
  if◌then◌else◌,
}
use japan_agent.Base.Decimal.{Decimal, add}
use japan_agent.Base.Exec.{Exec, lift, gets, ◌>>=◌, ◌>>◌, raise_if}
use japan_agent.Time.{Instant}
use japan_agent.Predict.Ledger.{
  Portfolio, Forecast, is_entry, PaperTicket, refused, decision_refused, Ledger, LedgerError,
  other_forecast, already_decided, no_reason, needs_baseline, Hashes, append_journal, transaction,
}
use japan_agent.Predict.Cash.{available_cash, is_open}
use japan_agent.Predict.Tickets.{nought, portfolio_of, is_decided, find_forecast, find_baseline}
use japan_agent.Predict.Tickets.Open.{insert_decision}

-- The entry forecast of the portfolio's cohort.
unfoldable pub entry_forecast : Portfolio → Option Forecast → Result LedgerError Forecast
entry_forecast p none = err other_forecast
entry_forecast p (some f) =
    if not (is_entry f.values.kind) || not (str_eq f.values.cohort_id p.cohort_id)
    then err other_forecast
    else ok f

unfoldable pub record_refusal_locked :
    Hashes → String → ℕ → String → Instant → Exec Ledger LedgerError (Unit {0})
unfolding portfolio_of entry_forecast find_forecast find_baseline
record_refusal_locked hashes portfolio_id forecast_id reason now = do
  raise_if (str_eq reason "") no_reason
  l ← gets (λ l. l)
  row ← lift (portfolio_of portfolio_id l)
  f ← lift (entry_forecast row.0 (find_forecast forecast_id l.forecasts))
  raise_if (is_decided portfolio_id forecast_id l) already_decided
  raise_if (not (is_some (find_baseline forecast_id l.baselines))) needs_baseline
  insert_decision (record {
    portfolio_id = portfolio_id;
    forecast_id = forecast_id;
    condition_id = f.values.condition_id;
    kind = refused reason;
    decided_at = now;
  })
  append_journal hashes (decision_refused portfolio_id forecast_id reason) now

unfoldable pub record_refusal_decision :
    Hashes → String → ℕ → String → Instant → Exec Ledger LedgerError (Unit {0})
unfolding record_refusal_locked
record_refusal_decision hashes portfolio_id forecast_id reason now =
    transaction (record_refusal_locked hashes portfolio_id forecast_id reason now)

-- The loop of `open_cost`
unfoldable pub open_cost_from : Decimal → String → List PaperTicket → Decimal
open_cost_from total id [] = total
open_cost_from total id (t ∷ ts) =
    let mine = str_eq t.core.portfolio_id id in
    open_cost_from (if mine && is_open t.status then add total t.core.cost_total else total) id ts

unfoldable pub open_cost : String → List PaperTicket → Decimal
unfolding open_cost_from
open_cost id tickets = open_cost_from nought id tickets

unfoldable pub equity : String → Ledger → Decimal
unfolding open_cost
equity id l = add (available_cash id l.cash) (open_cost id l.tickets)
