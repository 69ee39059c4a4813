-- ===== src/Predict/Tests/Paper.antt =====
-- The decision of a portfolio, and the artifact of its policy.
use japan_agent.Base.{◌≡◌, refl, none, some, false, [], ◌∷◌, ok, arith}
use japan_agent.Base.Table.{lookup}
use japan_agent.Base.Sort.{sort}
use japan_agent.Base.Decimal.{
  dec, lt, le, eq, sub, min_of, max_of, mul, div, quantize, add, sum_from,
}
use japan_agent.Base.Decimal.Remainder.{remainder}
use japan_agent.Base.Decimal.Format.{of_text, to_text}
use japan_agent.Predict.Fills.{fee_per_share, walk_asks}
use japan_agent.Predict.Policy.{gate, side_probabilities, budget_for}
use japan_agent.Predict.Policy.Decide.{decide}
use japan_agent.Predict.Cash.{append_cash_entry}
use japan_agent.Predict.Tickets.{ticket_totals, check_draft}
use japan_agent.Predict.Tickets.Refuse.{equity}
use japan_agent.Predict.Tickets.Open.{open_ticket_locked}
use japan_agent.Predict.Outcome.{yes, no}
use japan_agent.Predict.Params.Parse.{fields, policy_from_artifact}
use japan_agent.Predict.Params.Roundtrip.{
  policy_record, IsAdmissible, policy_from_artifact-policy_record,
}
use japan_agent.Predict.Gamma.{unreadable}
use japan_agent.Predict.Ledger.{
  funding, active, completed, snapshots, policy, Ledger, transaction, append_journal,
}
use japan_agent.Predict.Paper.Decide.{bought, decide_portfolio}
use japan_agent.Predict.Paper.Decided.{Deciding, decide_portfolio-Deciding}
use japan_agent.Predict.Tickets.Single.{IsSingle}
use japan_agent.Predict.Paper.Trade.{trade_ready}
use japan_agent.Predict.Paper.Single.{trade_ready-IsSingle}
use japan_agent.Predict.Tests.{hashes, ledger}
use japan_agent.Predict.Tests.Research.{forecast}
use japan_agent.Predict.Tests.Trading.{params, yes_book, no_book}

admissible : IsAdmissible params
unfolding lt le
admissible = record {
  bankroll = refl;
  min_edge = refl;
  slippage = refl;
  kelly = refl;
  market = refl;
  event = refl;
  category = refl;
  total = refl;
  hours = omega arith;
  age = omega arith;
}

policy_from_artifact-policy_record_example :
    policy_from_artifact (fields (policy_record params)) ≡ ok params
policy_from_artifact-policy_record_example = policy_from_artifact-policy_record params admissible

-- A funded portfolio whose forecast has its books, in a market of the latest discovery.
abbrev before : Ledger
before = record ledger {
  artifacts =
      ("h1", record { kind = policy; content = "h1"; policy = fields (policy_record params) }) ∷ [];
  cohorts =
      (
        "g1",
        record {
          status = active;
          starting_bankroll = dec 100 0;
          baseline_window_seconds = 600;
          frozen_cap = unreadable;
          code_version = "v1";
          started_at = 10;
          closed_at = none;
        },
      )
      ∷ [];
  markets = ("c1", record { event_id = "e1"; category = "k1"; current_rules_hash = "r1" }) ∷ [];
  rules = record { condition_id = "c1"; rules_hash = "r1"; end_date = some 999999999999 } ∷ [];
  runs = record { run_id = "u1"; command = "discover"; started_at = 5; status = completed } ∷ [];
  discoveries = record { run_id = "u1"; condition_id = "c1" } ∷ [];
  snapshots =
      record {
        id = 1;
        condition_id = "c1";
        outcome = yes;
        fetched_at = 1000;
        asks = yes_book.asks;
        tick_size = dec 1 2;
        min_order_size = dec 5 0;
        fees_enabled = false;
        fee_schedule = none;
      }
      ∷ record {
        id = 2;
        condition_id = "c1";
        outcome = no;
        fetched_at = 1000;
        asks = no_book.asks;
        tick_size = dec 1 2;
        min_order_size = dec 5 0;
        fees_enabled = false;
        fee_schedule = none;
      }
      ∷ [];
  observations = [];
  forecasts =
      record { forecast_id = 1; values = forecast; created_at = 30; forecast_hash = "f1" } ∷ [];
  baselines = record { forecast_id = 1; sides = snapshots 1 2; attached_at = 35 } ∷ [];
  tickets = [];
  cash =
      record {
        core = record {
          portfolio_id = "p1";
          entry_type = funding;
          amount = dec 100 0;
          ticket_id = none;
          at = 20;
          prev_hash = "";
        };
        entry_hash = "e1";
      }
      ∷ [];
}

decide_portfolio-Deciding_example :
    Deciding hashes "p1" 1 2000 before (decide_portfolio hashes "p1" 1 2000 before)
decide_portfolio-Deciding_example = decide_portfolio-Deciding hashes "p1" 1 2000 before

-- The portfolio buys.
buys : (decide_portfolio hashes "p1" 1 2000 before).0 ≡ ok (bought 1)
unfolding decide_portfolio transaction lookup policy_record of_text to_text lt le eq decide gate
    side_probabilities sub min_of max_of fee_per_share mul budget_for div walk_asks remainder sort
    quantize add sum_from open_ticket_locked append_cash_entry append_journal equity ticket_totals
    check_draft
buys = refl

trade_ready-IsSingle_example : IsSingle (trade_ready hashes (λ _. 2000) before).1.tickets
trade_ready-IsSingle_example =
    trade_ready-IsSingle hashes (λ _. 2000) before (λ portfolio_id condition_id. omega arith)
