-- ===== src/Predict/Paper/Decide.antt =====
-- predict_agent/paper.py: `decide_portfolio`. The clock is read once; its reading is an argument.
use japan_agent.Base.{
  ℕ, Bool, true, false, not, none, some, String, Result, ok, err, map_err, if◌then◌else◌,
}
use japan_agent.Base.Exec.{Exec, pure, lift, gets, ◌>>=◌, ◌>>◌}
use japan_agent.Time.{Instant}
use japan_agent.Predict.Fills.{tick_mismatch, bad_book, bad_budget, fee_unknown}
use japan_agent.Predict.Policy.{
  Trade, Reason, forecast_abstained, rules_changed, eligibility_lost, resolution_begun,
  already_held, low_confidence, closing_soon, no_book, stale_book, no_fee_rate, no_depth, no_edge,
  no_budget, below_min_order, no_edge_after_fill, cohort_closed, unusable_book, Decided, traded,
  refused,
}
use japan_agent.Predict.Policy.Decide.{decide}
use japan_agent.Predict.Ledger.{
  Portfolio, Cohort, Forecast, Ledger, LedgerError, unknown_forecast, policy_failed, Hashes,
  transaction,
}
use japan_agent.Predict.Tickets.{TicketDraft, portfolio_of, is_decided, is_active, find_forecast}
use japan_agent.Predict.Tickets.Open.{open_ticket_locked}
use japan_agent.Predict.Tickets.Refuse.{record_refusal_locked}
use japan_agent.Predict.Paper.{load_inputs, policy_at}

-- The codes of refusals and of FillErrors.
abbrev pub reason_text : Reason → String
reason_text forecast_abstained = "ABSTAINED"
reason_text rules_changed = "RULES_CHANGED"
reason_text eligibility_lost = "ELIGIBILITY_LOST"
reason_text resolution_begun = "RESOLUTION_STARTED"
reason_text already_held = "ALREADY_TRADED"
reason_text low_confidence = "LOW_CONFIDENCE"
reason_text closing_soon = "CLOSING_SOON"
reason_text no_book = "NO_BOOK"
reason_text stale_book = "STALE_BOOK"
reason_text no_fee_rate = "FEE_UNKNOWN"
reason_text no_depth = "NO_DEPTH"
reason_text no_edge = "NO_EDGE"
reason_text no_budget = "NO_BUDGET"
reason_text below_min_order = "BELOW_MIN_ORDER"
reason_text no_edge_after_fill = "NO_EDGE_AFTER_FILL"
reason_text cohort_closed = "COHORT_CLOSED"
reason_text (unusable_book tick_mismatch) = "TICK_MISMATCH"
reason_text (unusable_book bad_book) = "BAD_BOOK"
reason_text (unusable_book bad_budget) = "BAD_BUDGET"
reason_text (unusable_book fee_unknown) = "FEE_UNKNOWN"

-- DecisionResult: decided before, refused, or traded.
pub data DecisionResult : Type 0 where
  skipped : DecisionResult
  declined : Reason → DecisionResult
  bought : ℕ → DecisionResult

abbrev pub draft_of : String → ℕ → Portfolio → Forecast → Trade → TicketDraft
draft_of portfolio_id forecast_id p f t = record {
  portfolio_id = portfolio_id;
  forecast_id = forecast_id;
  snapshot_id = t.snapshot_id;
  condition_id = f.values.condition_id;
  outcome = t.outcome;
  fills = t.walk.fills;
  fee = t.walk.fee;
  policy_hash = p.policy_hash;
  rules_hash = f.values.rules_hash;
}

-- `SELECT condition_id, rules_hash FROM forecasts WHERE forecast_id = ?`
unfoldable pub known_forecast : ℕ → Ledger → Result LedgerError Forecast
unfolding find_forecast
known_forecast id l = elim (find_forecast id l.forecasts) [
  | none ↦ err unknown_forecast
  | some f ↦ ok f
]

module _ (hashes : Hashes) (portfolio_id : String) (forecast_id : ℕ) (now : Instant) where
  unfoldable pub decline : Reason → Exec Ledger LedgerError DecisionResult
  decline reason = do
    record_refusal_locked hashes portfolio_id forecast_id (reason_text reason) now
    pure (declined reason)

  unfoldable pub buy : Portfolio → Trade → Exec Ledger LedgerError DecisionResult
  unfolding known_forecast
  buy p t = do
    found ← gets (known_forecast forecast_id)
    f ← lift found
    id ← open_ticket_locked hashes (draft_of portfolio_id forecast_id p f t) now
    pure (bought id)

  -- What the decision of the policy leads to.
  unfoldable pub carry_out : Portfolio → Decided → Exec Ledger LedgerError DecisionResult
  unfolding decline buy
  carry_out p (refused reason) = decline reason
  carry_out p (traded t) = buy p t

  -- The decision of a portfolio that has none and whose cohort is active.
  unfoldable pub decide_now : Portfolio → Exec Ledger LedgerError DecisionResult
  unfolding carry_out load_inputs policy_at
  decide_now p = do
    known ← gets (policy_at hashes p.policy_hash)
    params ← lift known
    loaded ← gets (load_inputs portfolio_id forecast_id now)
    inputs ← lift loaded
    decided ← lift (map_err (λ _. policy_failed) (decide inputs params))
    carry_out p decided

  -- The three ways of a portfolio: decided before, of a closed cohort, or to be decided.
  unfoldable pub decide_row : Bool → Portfolio × Cohort → Exec Ledger LedgerError DecisionResult
  unfolding decide_now decline
  decide_row true row = pure skipped
  decide_row false row =
      if not (is_active row.1.status) then decline cohort_closed else decide_now row.0

  unfoldable pub decide_locked : Exec Ledger LedgerError DecisionResult
  unfolding decide_row portfolio_of
  decide_locked = do
    found ← gets (portfolio_of portfolio_id)
    row ← lift found
    decided ← gets (is_decided portfolio_id forecast_id)
    decide_row decided row

  unfoldable pub decide_portfolio : Exec Ledger LedgerError DecisionResult
  unfolding decide_locked
  decide_portfolio = transaction decide_locked
