-- ===== src/Predict/Tests/Tickets.antt =====
-- The ticket of a trade.
use japan_agent.Base.{
  ◌≡◌, refl, none, [], ◌∷◌, ok, arith, subst, ap, sym, ◌∙◌, ok-injective, Bool-cases, inl, inr, ◌<◌,
  str_eq,
}
use japan_agent.Base.Table.{lookup}
use japan_agent.Base.Decimal.{Decimal, dec, add, mul, lt, le, eq, magnitude, precision_limit}
use japan_agent.Base.Decimal.Order.{IsPositive-intro}
use japan_agent.Predict.Outcome.{yes}
use japan_agent.Predict.Fills.{cost}
use japan_agent.Predict.Gamma.{unreadable}
use japan_agent.Predict.Ledger.{funding, active, snapshots, Ledger, append_journal, transaction}
use japan_agent.Predict.Cash.{append_cash_entry, available_cash, available_from}
use japan_agent.Predict.Cash.Solvent.{IsSolvent}
use japan_agent.Predict.Tickets.{TicketDraft, check_draft, ticket_totals}
use japan_agent.Predict.Tickets.Open.{open_ticket}
use japan_agent.Predict.Tickets.Opened.{Opening, open_ticket-Opening}
use japan_agent.Predict.Tickets.Solvent.{open_ticket-IsSolvent}
use japan_agent.Predict.Tickets.Totals.{ticket_totals-walk_asks}
use japan_agent.Predict.Tests.{hashes, ledger}
use japan_agent.Predict.Tests.Research.{forecast}
use japan_agent.Predict.Tests.Trading.{asks, walk_yes, walked}

abbrev draft : TicketDraft
draft = record {
  portfolio_id = "p1";
  forecast_id = 1;
  snapshot_id = 1;
  condition_id = "c1";
  outcome = yes;
  fills = walk_yes.fills;
  fee = walk_yes.fee;
  policy_hash = "h1";
  rules_hash = "r1";
}

totals : ticket_totals draft ≡ ok (dec 12318 2, cost walk_yes)
totals =
    ticket_totals-walk_asks asks (dec 50 0) (dec 0 0) (dec 42 2) (dec 1 2) walk_yes draft walked
      (IsPositive-intro 12318 2 (omega arith)) refl refl refl

ticket_totals-walk_asks_example : ticket_totals draft ≡ ok (dec 12318 2, cost walk_yes)
ticket_totals-walk_asks_example =
    ticket_totals-walk_asks asks (dec 50 0) (dec 0 0) (dec 42 2) (dec 1 2) walk_yes draft walked
      (IsPositive-intro 12318 2 (omega arith)) refl refl refl

-- An entry forecast of a running cohort, with both snapshots, and cash.
abbrev before : Ledger
before = record ledger {
  cohorts =
      (
        "g1",
        record {
          status = active;
          starting_bankroll = dec 100 0;
          baseline_window_seconds = 600;
          frozen_cap = unreadable;
          code_version = "v1";
          started_at = 10;
          closed_at = none;
        },
      )
      ∷ [];
  forecasts =
      record { forecast_id = 1; values = forecast; created_at = 30; forecast_hash = "f1" } ∷ [];
  baselines = record { forecast_id = 1; sides = snapshots 1 2; attached_at = 35 } ∷ [];
  tickets = [];
  cash =
      record {
        core = record {
          portfolio_id = "p1";
          entry_type = funding;
          amount = dec 100 0;
          ticket_id = none;
          at = 20;
          prev_hash = "";
        };
        entry_hash = "e1";
      }
      ∷ [];
}

open_ticket-Opening_example : Opening hashes draft 40 before (open_ticket hashes draft 40 before)
open_ticket-Opening_example = open_ticket-Opening hashes draft 40 before

-- The ticket is opened.
opens : (open_ticket hashes draft 40 before).0 ≡ ok 1
unfolding open_ticket transaction ticket_totals lt le check_draft lookup append_cash_entry add mul
    eq append_journal
opens = refl

small :
    (shares c : Decimal)
    → ticket_totals draft ≡ ok (shares, c)
    → magnitude c.coefficient < precision_limit
unfolding cost add
small shares c h =
    subst (λ (d : Decimal). magnitude d.coefficient < precision_limit)
      (ap (λ (t : Decimal × Decimal). t.1) (ok-injective (sym totals ∙ h))) (omega arith)

funded : IsSolvent before.cash
unfolding available_cash available_from add mul
funded id = elim (Bool-cases (str_eq "p1" id)) [
  | inl same ↦ record { nonneg = rw same refl }
  | inr other ↦ record { nonneg = rw other refl }
]

open_ticket-IsSolvent_example : IsSolvent (open_ticket hashes draft 40 before).1.cash
open_ticket-IsSolvent_example = open_ticket-IsSolvent hashes draft 40 before small funded
