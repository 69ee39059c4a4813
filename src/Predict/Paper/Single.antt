-- ===== src/Predict/Paper/Single.antt =====
-- Trading and the tickets that a portfolio holds.
use japan_agent.Base.{ℕ, suc, subst, sym, List, [], ◌∷◌, String, Result, ok, err}
use japan_agent.Base.Exec.Frame.{Relation, Along, Along-pure, Along-bind, frame_rules}
use japan_agent.Time.{Instant}
use japan_agent.Predict.Ledger.{Ledger, LedgerError, Hashes}
use japan_agent.Predict.Forecasts.Resume.{
  ResumeStep, step_baseline, baseline_expired, step_decision, step_done,
}
use japan_agent.Predict.Tickets.Single.{IsSingle, Opening-IsSingle}
use japan_agent.Predict.Paper.Decide.{
  DecisionResult, skipped, declined, bought, draft_of, decide_portfolio,
}
use japan_agent.Predict.Paper.Decided.{Deciding, decide_portfolio-Deciding}
use japan_agent.Predict.Paper.Trade.{
  TradeSummary, no_trades, counted, trade_portfolios, trade_forecast, trade_forecasts,
  trade_cohorts, trade_ready,
}

-- No portfolio has two tickets for one market in the second ledger, if none has in the first.
abbrev holding : Relation Ledger
holding = record {
  rel = λ l l'. IsSingle l.tickets → IsSingle l'.tickets;
  rel_refl = λ l h. h;
  rel_trans = λ p q h. q (p h);
}

Deciding-IsSingle :
    (hashes : Hashes) (portfolio_id : String) (id : ℕ) (now : Instant) (l : Ledger)
    (q : Result LedgerError DecisionResult × Ledger)
    → Deciding hashes portfolio_id id now l q
    → IsSingle l.tickets
    → IsSingle q.1.tickets
Deciding-IsSingle hashes portfolio_id id now l (err e, l') same h =
    subst (λ (w : Ledger). IsSingle w.tickets) (sym same) h
Deciding-IsSingle hashes portfolio_id id now l (ok skipped, l') (_, same) h =
    subst (λ (w : Ledger). IsSingle w.tickets) (sym same) h
Deciding-IsSingle hashes portfolio_id id now l (ok (declined reason), l') (_, _, _, refusal) h =
    subst (λ (w : Ledger). IsSingle w.tickets) (sym refusal.written) h
Deciding-IsSingle hashes portfolio_id id now l (ok (bought n), l') (row, t, _, _, _, made) h =
    Opening-IsSingle hashes (draft_of portfolio_id id row.0 made.forecast t) now l (ok n, l')
      made.opened h

module _ (hashes : Hashes) (clock : ℕ → Instant) where
  Along-decide :
      (portfolio_id : String) (id : ℕ) (now : Instant)
      → Along holding (decide_portfolio hashes portfolio_id id now)
  Along-decide portfolio_id id now = record {
    at = λ l.
        Deciding-IsSingle hashes portfolio_id id now l
          (decide_portfolio hashes portfolio_id id now l)
          (decide_portfolio-Deciding hashes portfolio_id id now l);
  }

  Along-portfolios :
      (id n : ℕ) (s : TradeSummary) (ids : List String)
      → Along holding (trade_portfolios hashes clock id n s ids)
  unfolding trade_portfolios
  Along-portfolios id n s [] = Along-pure holding (n, s)
  Along-portfolios id n s (p ∷ ps) =
      Along-bind holding (decide_portfolio hashes p id (clock n)) _ (Along-decide p id (clock n))
        (λ d. Along-portfolios id (suc n) (counted d s) ps)

  Along-forecast :
      (id n : ℕ) (s : TradeSummary) (step : ResumeStep)
      → Along holding (trade_forecast hashes clock id n s step)
  unfolding trade_forecast
  Along-forecast id n s step_decision = search (frame_rules, Along-portfolios) depth 10
  Along-forecast id n s step_baseline = Along-pure holding _
  Along-forecast id n s baseline_expired = Along-pure holding _
  Along-forecast id n s step_done = Along-pure holding _

  Along-forecasts :
      (n : ℕ) (s : TradeSummary) (ids : List ℕ)
      → Along holding (trade_forecasts hashes clock n s ids)
  unfolding trade_forecasts
  Along-forecasts n s [] = Along-pure holding (n, s)
  Along-forecasts n s (id ∷ ids) =
      let rest = λ (after : ℕ × TradeSummary). Along-forecasts after.0 after.1 ids in
      search (frame_rules, Along-forecast, rest) depth 12

  Along-cohorts :
      (n : ℕ) (s : TradeSummary) (ids : List String)
      → Along holding (trade_cohorts hashes clock n s ids)
  unfolding trade_cohorts
  Along-cohorts n s [] = Along-pure holding s
  Along-cohorts n s (id ∷ ids) =
      let rest = λ (after : ℕ × TradeSummary). Along-cohorts after.0 after.1 ids in
      search (frame_rules, Along-forecasts, rest) depth 12

  -- Where no portfolio has two tickets for one market, none has after a run of `trade_ready`, whatever
  -- the clock reads and also where it ends in an exception.
  pub trade_ready-IsSingle :
      (l : Ledger) → IsSingle l.tickets → IsSingle (trade_ready hashes clock l).1.tickets
  unfolding trade_ready
  trade_ready-IsSingle l h = (Along-cohorts 0 no_trades _).at l h
