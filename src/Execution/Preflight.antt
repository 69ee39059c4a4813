-- ===== src/Execution/Preflight.antt =====
-- The checks of ExecutionService.execute between the approval and the claim.
use japan_agent.Base.{
  ℕ, ◌+◌, ◌-◌, Bool, false, ◌&&◌, ◌||◌, not, is_some, String, str_eq, Result, ◌>>=◌, ◌>>◌, raise_if,
  map_err, ltb,
}
use japan_agent.Base.Decimal.{dec, sub, absolute, div, lt, le}
use japan_agent.Time.{Instant, Datetime, aware, ensure_utc, minutes, days}
use mathlib.Core.List
use japan_agent.Models.Portfolio.{PriceSnapshot, PortfolioSnapshot}
use japan_agent.Models.Ticket.{TradeTicket}
use japan_agent.Risk.Policy.{RiskPolicy, RiskError, rejected}
use japan_agent.Risk.Validate.{validate_execution}
use japan_agent.Storage.Rows.{ProposalRow, Database, OrderRequest}
use japan_agent.Storage.Executions.{submitted_trade_times}
use japan_agent.Execution.Errors.{
  integrity, approval_missing, quote_ticker, quote_age, quote_price, price_moved, portfolio_source,
  portfolio_age, risk_check, ExecutionError, blocked, naive_time, decimal_failed, risk_failed,
}
use japan_agent.Execution.Gate.{Settings, whitelisted}

-- The keyword arguments of `execute`.
pub record ExecuteCall : Type 0 where
  pub proposal_id : String
  pub current_snapshot : PriceSnapshot
  pub portfolio_snapshot : PortfolioSnapshot
  pub now : Datetime

abbrev pub utc : Datetime → Result ExecutionError Instant
utc t = map_err (λ _. naive_time) (ensure_utc t)

unfoldable pub check_approval :
    (TradeTicket → String) → ProposalRow → Result ExecutionError (Unit {0})
check_approval fingerprint row = do
  raise_if (not (str_eq row.ticket_hash (fingerprint row.ticket))) (blocked integrity)
  raise_if (not (is_some row.approved_at && is_some row.approved_by)) (blocked approval_missing)

-- `age < timedelta(0) or age > limit`, for a timestamp
abbrev pub out_of_window : Instant → Instant → ℕ → Bool
out_of_window now observed limit = ltb now observed || ltb (observed + limit) now

unfoldable pub check_quote :
    TradeTicket → PriceSnapshot → Instant → Result ExecutionError (Unit {0})
check_quote t quote now = do
  raise_if (not (str_eq quote.ticker t.ticker)) (blocked quote_ticker)
  observed ← utc quote.observed_at
  raise_if (out_of_window now observed (minutes 20)) (blocked quote_age)
  raise_if (le quote.price_gbp (dec 0 0)) (blocked quote_price)
  deviation ←
      map_err decimal_failed
        (div (absolute (sub quote.price_gbp t.reference_price_gbp)) t.reference_price_gbp)
  raise_if (lt t.max_price_deviation_fraction deviation) (blocked price_moved)

unfoldable pub check_portfolio : PortfolioSnapshot → Instant → Result ExecutionError (Unit {0})
check_portfolio p now = do
  observed ← utc p.observed_at
  raise_if (not (str_eq p.source "TRADING212")) (blocked portfolio_source)
  raise_if (out_of_window now observed (minutes 2)) (blocked portfolio_age)

-- `except RiskRejected` blocks; what else `validate_execution` raises passes through.
abbrev pub risk_error : RiskError → ExecutionError
risk_error (rejected vs) = blocked (risk_check (rejected vs))
risk_error e = risk_failed e

-- A stored time always has a zone. In the first week of year 1, `now - timedelta(days=7)` would
-- overflow; here it is the first instant.
unfoldable pub check_risk :
    RiskPolicy
    → Settings
    → Database
    → TradeTicket
    → ExecuteCall
    → Instant
    → Result ExecutionError (Unit {0})
check_risk policy settings db t call now = do
  instrument ← whitelisted settings t.ticker
  map_err risk_error (
      validate_execution policy t instrument call.portfolio_snapshot.portfolio
        call.current_snapshot.price_gbp (List.map aware (submitted_trade_times db (now - days 7)))
        (aware now))

-- The checks after the expiry, in the order of the code.
unfoldable pub preflight :
    RiskPolicy
    → Settings
    → Database
    → TradeTicket
    → ExecuteCall
    → Instant
    → Result ExecutionError (Unit {0})
preflight policy settings db t call now = do
  check_quote t call.current_snapshot now
  check_portfolio call.portfolio_snapshot now
  check_risk policy settings db t call now

unfoldable pub request_of : ProposalRow → OrderRequest
request_of row = record {
  ticker = row.ticket.ticker;
  quantity = row.ticket.quantity;
  extended_hours = false;
  approved_ticket_hash = row.ticket_hash;
}
