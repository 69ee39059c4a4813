-- ===== src/Predict/Tickets.antt =====
-- predict_agent/tickets.py: paper tickets and entry decisions.
pub mod Open
pub mod Refuse
pub mod Refused
pub mod Backed
pub mod Opened
pub mod Single
pub mod Solvent
pub mod Totals
use japan_agent.Base.{
  ℕ, suc, Bool, true, false, not, ◌&&◌, ◌||◌, Option, none, some, List, [], ◌∷◌, ◌++◌, String,
  str_eq, Result, ok, err, ◌>>=◌, if◌then◌else◌, ◌==◌, any, length,
}
use japan_agent.Base.Decimal.{Decimal, dec, add, mul, lt, le}
use japan_agent.Base.Table.{lookup}
use japan_agent.Time.{Instant}
use japan_agent.Predict.Outcome.{Outcome, yes, no, same_outcome}
use japan_agent.Predict.Fills.{Fill}
use japan_agent.Predict.Policy.{is_side}
use japan_agent.Predict.Ledger.{
  Portfolio, Cohort, CohortStatus, active, closed, is_entry, Forecast, BaselineSides, snapshots,
  no_baseline, Baseline, opened, TicketCore, PaperTicket, DecisionKind, traded, refused, Decision,
  debit, ticket_opened, decision_refused, Ledger, LedgerError, bad_outcome, no_fills, invalid_fee,
  bad_fill_price, bad_fill_shares, unknown_portfolio, inactive_cohort, other_policy, other_forecast,
  other_rules, already_decided, other_snapshot, insert_refused, integrity_error, no_reason,
  needs_baseline, Hashes, append_journal, transaction,
}
use japan_agent.Predict.Cash.{append_cash_entry, available_cash, is_open}

pub record TicketDraft : Type 0 where
  pub portfolio_id : String
  pub forecast_id : ℕ
  pub snapshot_id : ℕ
  pub condition_id : String
  pub outcome : Outcome
  pub fills : List Fill
  pub fee : Decimal
  pub policy_hash : String
  pub rules_hash : String

abbrev pub nought : Decimal
nought = dec 0 0

-- The loop of `ticket_totals`: the shares and the notional of the fills.
unfoldable pub totals_from : Decimal → Decimal → List Fill → Result LedgerError (Decimal × Decimal)
totals_from shares notional [] = ok (shares, notional)
totals_from shares notional (f ∷ fs) =
    if not (lt nought f.price && lt f.price (dec 1 0))
    then err bad_fill_price
    else if le f.shares nought
    then err bad_fill_shares
    else totals_from (add shares f.shares) (add notional (mul f.price f.shares)) fs

abbrev pub is_empty : List Fill → Bool
is_empty [] = true
is_empty (_ ∷ _) = false

unfoldable pub ticket_totals : TicketDraft → Result LedgerError (Decimal × Decimal)
unfolding totals_from
ticket_totals d =
    if not (is_side d.outcome)
    then err bad_outcome
    else if is_empty d.fills
    then err no_fills
    else if lt d.fee nought
    then err invalid_fee
    else totals_from nought nought d.fills >>= λ sums. ok (sums.0, add sums.1 d.fee)

-- `_portfolio`, with the row of its cohort
unfoldable pub portfolio_of : String → Ledger → Result LedgerError (Portfolio × Cohort)
portfolio_of id l = elim (lookup id l.portfolios) [
  | none ↦ err unknown_portfolio
  | some p ↦ elim (lookup p.cohort_id l.cohorts) [
    | none ↦ err unknown_portfolio
    | some c ↦ ok (p, c)
  ]
]

abbrev pub decides : String → ℕ → Decision → Bool
decides portfolio_id forecast_id d =
    str_eq d.portfolio_id portfolio_id && d.forecast_id == forecast_id

-- `_decided`
abbrev pub is_decided : String → ℕ → Ledger → Bool
is_decided portfolio_id forecast_id l = any (decides portfolio_id forecast_id) l.decisions

unfoldable pub find_forecast : ℕ → List Forecast → Option Forecast
find_forecast id [] = none
find_forecast id (f ∷ fs) = if f.forecast_id == id then some f else find_forecast id fs

unfoldable pub find_baseline : ℕ → List Baseline → Option Baseline
find_baseline id [] = none
find_baseline id (b ∷ bs) = if b.forecast_id == id then some b else find_baseline id bs

abbrev pub is_active : CohortStatus → Bool
is_active active = true
is_active closed = false

-- The checks on the forecast of a ticket.
unfoldable pub check_forecast :
    TicketDraft → Portfolio → Option Forecast → Result LedgerError (Unit {0})
check_forecast d p none = err other_forecast
check_forecast d p (some f) =
    if not (str_eq f.values.cohort_id p.cohort_id)
      || (not (str_eq f.values.condition_id d.condition_id)
          || (not (is_entry f.values.kind) || f.values.abstained))
    then err other_forecast
    else if not (str_eq f.values.rules_hash d.rules_hash)
    then err other_rules
    else ok tt

-- The baseline's snapshot of the side that is bought is the draft's.
unfoldable pub side_is : Outcome → ℕ → Option Baseline → Bool
side_is side id none = false
side_is side id (some b) = elim b.sides [
  | no_baseline _ ↦ false
  | snapshots yes_id no_id ↦ (if same_outcome side yes then yes_id else no_id) == id
]

abbrev pub refuse_if : Bool → LedgerError → Result LedgerError (Unit {0})
refuse_if b e = if b then err e else ok tt

unfoldable pub check_draft : TicketDraft → Ledger → Result LedgerError (Unit {0})
unfolding portfolio_of check_forecast find_forecast find_baseline side_is
check_draft d l = portfolio_of d.portfolio_id l >>= λ row.
    refuse_if (not (is_active row.1.status)) inactive_cohort >>= λ _.
    refuse_if (not (str_eq d.policy_hash row.0.policy_hash)) other_policy >>= λ _.
    check_forecast d row.0 (find_forecast d.forecast_id l.forecasts) >>= λ _.
    refuse_if (is_decided d.portfolio_id d.forecast_id l) already_decided >>= λ _.
    refuse_if (not (side_is d.outcome d.snapshot_id (find_baseline d.forecast_id l.baselines)))
      other_snapshot

abbrev pub core_of : TicketDraft → Decimal → Decimal → Instant → TicketCore
core_of d shares cost_total now = record {
  portfolio_id = d.portfolio_id;
  forecast_id = d.forecast_id;
  snapshot_id = d.snapshot_id;
  condition_id = d.condition_id;
  outcome = d.outcome;
  shares = shares;
  fills = d.fills;
  fee = d.fee;
  cost_total = cost_total;
  policy_hash = d.policy_hash;
  rules_hash = d.rules_hash;
  created_at = now;
}

abbrev pub holds : String → String → PaperTicket → Bool
holds portfolio_id condition_id t =
    str_eq t.core.portfolio_id portfolio_id && str_eq t.core.condition_id condition_id

-- The UNIQUE constraints of paper_tickets.
abbrev pub clashes : TicketCore → String → PaperTicket → Bool
clashes core hash t =
    holds core.portfolio_id core.condition_id t
    || ((str_eq t.core.portfolio_id core.portfolio_id && t.core.forecast_id == core.forecast_id)
        || str_eq t.ticket_hash hash)

abbrev pub new_ticket : Hashes → TicketCore → Ledger → PaperTicket
new_ticket hashes core l = record {
  ticket_id = suc (length l.tickets);
  core = core;
  ticket_hash = hashes.ticket core;
  status = opened;
}

abbrev pub decision_of : TicketDraft → DecisionKind → Instant → Decision
decision_of d kind now = record {
  portfolio_id = d.portfolio_id;
  forecast_id = d.forecast_id;
  condition_id = d.condition_id;
  kind = kind;
  decided_at = now;
}
