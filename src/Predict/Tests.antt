-- ===== src/Predict/Tests.antt =====
-- A market that resolves, and the ticket that it settles.
mod Trading
mod Research
mod Tickets
mod Paper
mod Cohorts
use japan_agent.Base.{◌≡◌, ◌≢◌, ◌↔◌, ◌⊎◌, inl, inr, refl, none, some, [], ◌∷◌, ok, In, arith}
use japan_agent.Base.Table.{lookup}
use japan_agent.Base.Decimal.{dec, sub, mul, lt, le, eq}
use japan_agent.Predict.Outcome.{
  yes, no, unknown, confirmed, mismatch, prices, gamma_outcome, gamma_lean, cross_check,
  reconcile_outcome,
}
use japan_agent.Predict.Outcome.Confirmed.{reconcile_outcome_iff}
use japan_agent.Predict.Observation.{
  Observation, final_outcome, governing_observation, govern, latest_end, candidates, ending,
  starting, same_evidence, least, by_start, pending_reason,
}
use japan_agent.Predict.Observation.Governs.{Governs}
use japan_agent.Predict.Observation.Final.{Settles, final_outcome_iff, final_outcome_order}
use japan_agent.Predict.Ledger.{
  debit, opened, PaperTicket, Portfolio, Ledger, Hashes, append_journal, last_journal, transaction,
}
use japan_agent.Predict.Cash.{
  append_cash_entry, available_cash, available_from, find_ticket, find_settlement, check_entry,
  check_backing, check_ticket, check_record, new_entry, last_entry, insert_entry,
}
use japan_agent.Predict.Cash.Solvent.{IsSolvent, append_cash_entry-IsSolvent}
use japan_agent.Predict.Settlement.{
  payout_per_share, observations_of, insert_settlement, close_ticket, record_payout, pay_ticket,
  is_settled, settle_observed, settle_row_of, settle_found, settle_ticket, settle_open_tickets,
}
use japan_agent.Predict.Settlement.Solvent.{settle_open_tickets-IsSolvent}
use japan_agent.Predict.Settlement.Ends.{Ends, settle_ticket-Ends}

reconcile_outcome_iff_example :
    let g = prices (some (dec 10 1) ∷ some (dec 0 0) ∷ []) in
    ((reconcile_outcome (some yes) g ≡ (some yes, confirmed))
      ↔ ((some yes ≡ some yes) × (yes ≢ unknown) × (gamma_outcome g ≡ some yes)))
    × (((reconcile_outcome (some yes) g).0 ≡ some yes)
        ⊎ (reconcile_outcome (some yes) g ≡ (some unknown, mismatch)))
reconcile_outcome_iff_example =
    reconcile_outcome_iff (some yes) (prices (some (dec 10 1) ∷ some (dec 0 0) ∷ [])) yes

-- Prices of 0.97 and 0.03 against a stated NO.
disputed :
    reconcile_outcome (some no) (prices (some (dec 97 2) ∷ some (dec 3 2) ∷ []))
    ≡ (some unknown, mismatch)
unfolding reconcile_outcome gamma_outcome gamma_lean cross_check eq le lt
disputed = refl

abbrev pub posed : Observation
posed = record {
  id = 1;
  status = "posed";
  outcome = none;
  cross_check = confirmed;
  resolution_requested_at = none;
  resolution_fetched_at = 100;
  gamma_fetched_at = none;
}

abbrev pub resolved : Observation
resolved = record {
  id = 2;
  status = "resolved";
  outcome = some yes;
  cross_check = confirmed;
  resolution_requested_at = some 200;
  resolution_fetched_at = 210;
  gamma_fetched_at = some 220;
}

final_outcome_iff_example :
    (final_outcome (posed ∷ resolved ∷ []) ≡ some yes)
    ↔ ((g : Observation) × Governs g (posed ∷ resolved ∷ []) × Settles g yes)
final_outcome_iff_example = final_outcome_iff (posed ∷ resolved ∷ []) yes

swapped : (a b r : Observation) → In r (a ∷ b ∷ []) → In r (b ∷ a ∷ [])
swapped a b r (inl e) = inr (inl e)
swapped a b r (inr (inl e)) = inl e
swapped a b r (inr (inr h)) = absurd h

final_outcome_order_example :
    final_outcome (posed ∷ resolved ∷ []) ≡ final_outcome (resolved ∷ posed ∷ [])
final_outcome_order_example =
    final_outcome_order (posed ∷ resolved ∷ []) (resolved ∷ posed ∷ [])
      (λ r. (swapped posed resolved r, swapped resolved posed r))

abbrev pub hashes : Hashes
hashes = record {
  cash = λ c. c.portfolio_id;
  journal = λ j. j.prev_hash;
  ticket = λ t. t.portfolio_id;
  forecast = λ f at. f.condition_id;
  text = λ t. t;
}

abbrev pub ticket : PaperTicket
ticket = record {
  ticket_id = 1;
  core = record {
    portfolio_id = "p1";
    forecast_id = 1;
    snapshot_id = 1;
    condition_id = "c1";
    outcome = yes;
    shares = dec 50 0;
    fills = record { price = dec 4 1; shares = dec 50 0 } ∷ [];
    fee = dec 0 0;
    cost_total = dec 20 0;
    policy_hash = "h1";
    rules_hash = "r1";
    created_at = 40;
  };
  ticket_hash = "p1";
  status = opened;
}

abbrev pub portfolio : Portfolio
portfolio = record {
  cohort_id = "g1";
  variant = "primary";
  policy_hash = "h1";
  starting_bankroll = dec 100 0;
}

abbrev pub ledger : Ledger
ledger = record {
  artifacts = [];
  cohorts = [];
  portfolios = ("p1", portfolio) ∷ [];
  markets = [];
  rules = [];
  runs = [];
  discoveries = [];
  snapshots = [];
  observations = ("c1", posed) ∷ ("c1", resolved) ∷ [];
  attempts = [];
  forecasts = [];
  baselines = [];
  tickets = ticket ∷ [];
  decisions = [];
  settlements = [];
  cash = [];
  journal = [];
}

pub solvent : IsSolvent []
unfolding available_cash available_from
solvent id = record { nonneg = refl }

append_cash_entry-IsSolvent_example :
    IsSolvent (append_cash_entry hashes "p1" debit (dec 20 0) (some 1) 50 ledger).1.cash
append_cash_entry-IsSolvent_example =
    append_cash_entry-IsSolvent hashes "p1" debit (dec 20 0) (some 1) 50 ledger (λ _. omega arith)
      solvent

settle_open_tickets-IsSolvent_example : IsSolvent (settle_open_tickets hashes 300 ledger).1.cash
settle_open_tickets-IsSolvent_example = settle_open_tickets-IsSolvent hashes 300 ledger solvent

settle_ticket-Ends_example :
    let (r, after) = settle_ticket hashes 300 1 ledger in Ends hashes 300 1 ledger r after
settle_ticket-Ends_example = settle_ticket-Ends hashes 300 1 ledger

-- The ticket is settled.
settles : (settle_ticket hashes 300 1 ledger).0 ≡ ok is_settled
unfolding settle_ticket settle_found settle_row_of find_ticket observations_of governing_observation
    govern latest_end candidates ending starting same_evidence least by_start settle_observed
    pending_reason pay_ticket payout_per_share record_payout insert_settlement find_settlement
    close_ticket append_cash_entry check_entry check_backing check_ticket check_record new_entry
    last_entry insert_entry append_journal last_journal transaction lookup mul sub lt le eq
settles = refl
