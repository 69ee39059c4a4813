-- ===== src/Predict/Paper/Trade.antt =====
-- predict_agent/paper.py: `trade_ready`. The clock gives its readings in order; its first argument
-- is the number of readings before.
use japan_agent.Base.{ℕ, suc, none, some, List, [], ◌∷◌, map, String}
use japan_agent.Base.Table.{Table, lookup, insert, update}
use japan_agent.Base.Exec.{Exec, pure, lift, gets, ◌>>=◌}
use japan_agent.Time.{Instant, days}
use japan_agent.Predict.Ledger.{Cohort, Ledger, LedgerError, Hashes}
use japan_agent.Predict.Forecasts.Resume.{
  ResumeStep, step_decision, resume_step, undecided_portfolios, unfinished_forecasts,
}
use japan_agent.Predict.Paper.Decide.{
  DecisionResult, skipped, declined, bought, reason_text, decide_portfolio,
}

pub record TradeSummary : Type 0 where
  pub traded : ℕ
  pub refused : Table ℕ
  pub waiting : ℕ
  pub skipped : ℕ

abbrev pub no_trades : TradeSummary
no_trades = record { traded = 0; refused = []; waiting = 0; skipped = 0 }

-- `counter[key] += 1`
unfoldable pub tallied : String → Table ℕ → Table ℕ
unfolding lookup insert update
tallied key counter = elim (lookup key counter) [
  | none ↦ insert key 1 counter
  | some n ↦ update key suc counter
]

unfoldable pub counted : DecisionResult → TradeSummary → TradeSummary
unfolding tallied
counted skipped s = record s { skipped = suc s.skipped }
counted (declined reason) s = record s { refused = tallied (reason_text reason) s.refused }
counted (bought id) s = record s { traded = suc s.traded }

-- `datetime.fromtimestamp(0, UTC)`
abbrev pub unix_epoch : Instant
unix_epoch = days 719162

module _ (hashes : Hashes) (clock : ℕ → Instant) where
  -- The loop over the portfolios of a forecast.
  unfoldable pub trade_portfolios :
      ℕ → ℕ → TradeSummary → List String → Exec Ledger LedgerError (ℕ × TradeSummary)
  unfolding counted
  trade_portfolios id n s [] = pure (n, s)
  trade_portfolios id n s (portfolio_id ∷ rest) = do
    result ← decide_portfolio hashes portfolio_id id (clock n)
    trade_portfolios id (suc n) (counted result s) rest

  -- A forecast that needs a decision is traded, any other waits.
  unfoldable pub trade_forecast :
      ℕ → ℕ → TradeSummary → ResumeStep → Exec Ledger LedgerError (ℕ × TradeSummary)
  unfolding trade_portfolios undecided_portfolios
  trade_forecast id n s step_decision = do
    portfolio_ids ← gets (undecided_portfolios id)
    trade_portfolios id n s portfolio_ids
  trade_forecast id n s _ = pure (n, record s { waiting = suc s.waiting })

  -- The loop over the forecasts of a cohort.
  unfoldable pub trade_forecasts :
      ℕ → TradeSummary → List ℕ → Exec Ledger LedgerError (ℕ × TradeSummary)
  unfolding trade_forecast resume_step
  trade_forecasts n s [] = pure (n, s)
  trade_forecasts n s (id ∷ ids) = do
    known ← gets (resume_step id (clock n))
    step ← lift known
    after ← trade_forecast id (suc n) s step
    trade_forecasts after.0 after.1 ids

  -- The loop over the cohorts.
  unfoldable pub trade_cohorts :
      ℕ → TradeSummary → List String → Exec Ledger LedgerError TradeSummary
  unfolding trade_forecasts unfinished_forecasts
  trade_cohorts n s [] = pure s
  trade_cohorts n s (cohort_id ∷ rest) = do
    ids ← gets (unfinished_forecasts unix_epoch cohort_id)
    after ← trade_forecasts n s ids
    trade_cohorts after.0 after.1 rest

  -- The cohorts are taken in the order of their rows.
  unfoldable pub trade_ready : Exec Ledger LedgerError TradeSummary
  unfolding trade_cohorts
  trade_ready = do
    ids ← gets (λ (l : Ledger). map (λ (row : String × Cohort). row.0) l.cohorts)
    trade_cohorts 0 no_trades ids
