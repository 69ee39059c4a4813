-- ===== src/Execution/Tests.antt =====
-- A concrete order through the execution service.
use japan_agent.Base.{
  ℕ, ◌+◌, ◌-◌, ◌≡◌, ◌≢◌, ◌≤◌, ◌↔◌, ◌⊎◌, refl, true, false, none, some, List, [], ◌∷◌, String, ok,
  err, arith,
}
use japan_agent.Base.Table
use japan_agent.Base.Table.{lookup, insert}
use japan_agent.Base.Text.{upper_is}
use japan_agent.Base.Decimal.{dec, le, div, absolute, sub, add, mul, quantize, min_of, eq}
use japan_agent.Risk.Build.{projected}
use japan_agent.Risk.Validate.{
  validate_execution, order_value, execution_checks, listing_checks, cap_checks, position_after,
}
use japan_agent.Storage.Proposals.{get_proposal}
use japan_agent.Storage.Executions.{
  claim_execution, get_execution, update_execution, updated_row, submitted_trade_times,
}
use japan_agent.Time.{monday_of, aware, hours, minutes}
use japan_agent.Models.Enums.{approved}
use japan_agent.Models.Portfolio.{find_position, position, nav_gbp}
use japan_agent.Risk.Policy.{
  violations, is_cash_type, trades_this_week, fraction_cap, absolute_cap, default_policy,
}
use japan_agent.Risk.Samples.{noon, fund, quote, purse, bought}
use japan_agent.Storage.Ledger.{append_event, taken, new_event, last_hash, next_sequence}
use japan_agent.Storage.Rows.{ExecutionRow, ExecutionState, ProposalRow, BrokerOrder, number}
use japan_agent.Approval.{ApprovalService}
use japan_agent.Execution.Broker.{
  answer, undecodable, place_market_order, order, IsReport, place_market_order_iff,
}
use japan_agent.Execution.Gate.{assert_environment_allowed, whitelisted, find_rule, missing}
use japan_agent.Execution.Gate.Allowed.{MayTradeLive, assert_environment_allowed_iff}
use japan_agent.Execution.Reconcile.{find_response, known_order_id, outcome_of, reconcile}
use japan_agent.Execution.Reconcile.Settled.{IsSettled, reconcile-Settled}
use japan_agent.Execution.Preflight.{
  check_approval, preflight, check_quote, check_portfolio, check_risk, ExecuteCall,
}
use japan_agent.Execution.Submit.{
  execute_found, execute_by_status, execute_approved, submit, claim, after_claim, send_order,
  settle_reply, is_ambiguous, quantity_mismatch, update, append, stored_response, World, Service,
  execute,
}
use japan_agent.Execution.Calm.{Quiet}
use japan_agent.Execution.Authority.{Sends, Authorised, execute_outcome}
use japan_agent.Storage.Proposals.Kept.{SameTicket}
use japan_agent.Execution.Immutable.{proposal_immutable}
use japan_agent.Execution.Single.{orders_for, executes, here, next, at_most_one_order}

place_market_order_iff_example :
    IsReport (answer 200 undecodable) 400 (place_market_order (answer 200 undecodable))
place_market_order_iff_example = place_market_order_iff (answer 200 undecodable) 400

abbrev service : Service
service = record {
  policy = default_policy;
  settings = record {
    killswitch_engaged = false;
    t212_environment = "demo";
    allow_live_trading = none;
    written_consent_reference = none;
    live_gate_file = missing;
    whitelist = record { verified = true; account_environment = "demo"; instruments = fund ∷ [] };
  };
  fingerprint = λ t. "f1";
  hash = λ c. c.event_id;
}

abbrev approvals : ApprovalService
approvals = record { fingerprint = λ t. "f1"; hash = λ c. c.event_id }

abbrev accepted_row : ProposalRow
accepted_row = record {
  ticket = bought;
  status = approved;
  ticket_hash = "f1";
  expires_at = noon + hours 24;
  approved_by = some "ann";
  approved_at = some noon;
  rejection_reason = none;
}

abbrev start : World
start = record {
  db = record { proposals = ("p1", accepted_row) ∷ []; executions = []; events = [] };
  sent = [];
}

abbrev call : ExecuteCall
call = record {
  proposal_id = "p1";
  current_snapshot = record quote { observed_at = aware noon };
  portfolio_snapshot = record {
    source = "TRADING212";
    observed_at = aware noon;
    portfolio = purse;
  };
  now = aware (noon + minutes 1);
}

abbrev confirmation : BrokerOrder
confirmation = record {
  id = some "17";
  ticker = some "JPN_EQ";
  side = some "BUY";
  quantity = some (number (dec 7692 4));
  extended_hours = false;
  status = "NEW";
}

abbrev once : World
once = (execute service call "u1" (order confirmation) start).1

abbrev twice : World
twice = (execute service call "u2" (order confirmation) once).1

execute_outcome_example :
    Quiet start once
    ⊎ ((row : ProposalRow) × Authorised service call row start × Sends "p1" row start once)
execute_outcome_example = execute_outcome service call "u1" (order confirmation) start

-- The second call finds the order of the first.
at_most_one_order_example : orders_for "p1" twice ≤ 1
at_most_one_order_example = at_most_one_order service approvals "p1" refl (
    next (next here (executes start call "u1" (order confirmation)))
      (executes once call "u2" (order confirmation)))

-- The second call sends nothing.
sent_once : orders_for "p1" twice ≡ 1
unfolding execute assert_environment_allowed execute_found get_proposal lookup execute_by_status
    execute_approved check_approval preflight check_quote le div absolute sub check_portfolio
    check_risk whitelisted find_rule validate_execution order_value mul quantize execution_checks
    listing_checks cap_checks violations is_cash_type upper_is trades_this_week monday_of nav_gbp
    add position find_position projected position_after fraction_cap absolute_cap min_of
    submitted_trade_times submit claim claim_execution insert after_claim send_order settle_reply
    is_ambiguous quantity_mismatch eq update japan_agent.Base.Table.update update_execution
    updated_row append append_event taken new_event last_hash next_sequence stored_response
    get_execution
sent_once = refl

assert_environment_allowed_iff_example :
    (assert_environment_allowed service.settings noon ≡ ok tt) ↔ (
      (false ≡ false)
      × ((service.settings.t212_environment ≡ "demo") ⊎ MayTradeLive service.settings noon))
assert_environment_allowed_iff_example = assert_environment_allowed_iff service.settings noon

abbrev sent_row : ExecutionRow
sent_row = record {
  state = ExecutionState.submitted;
  request = record {
    ticker = "JPN_EQ";
    quantity = dec 7692 4;
    extended_hours = false;
    approved_ticket_hash = "f1";
  };
  response = some confirmation;
  broker_order_id = some "17";
  submitted_at = some noon;
  updated_at = noon;
  error = none;
}

abbrev open_order : World
open_order = record start { db = record start.db { executions = ("p1", sent_row) ∷ [] } }

abbrev fill : BrokerOrder
fill = record confirmation { status = "FILLED" }

-- The order is filled a day later.
reconcile-Settled_example :
    IsSettled "p1"
      (aware (noon + hours 24))
      (order fill)
      none
      open_order
      (reconcile service "p1" (aware (noon + hours 24)) "u3" (order fill) none open_order)
reconcile-Settled_example =
    reconcile-Settled service "p1" "u3" (order fill) none open_order (aware (noon + hours 24))

reconciled :
    (reconcile service "p1" (aware (noon + hours 24)) "u3" (order fill) none open_order).0 ≡ ok fill
unfolding reconcile get_execution lookup known_order_id find_response outcome_of upper_is update
    update_execution updated_row japan_agent.Base.Table.update append append_event taken new_event
    last_hash next_sequence
reconciled = refl

stored_row : lookup "p1" start.db.proposals ≡ some accepted_row
unfolding lookup
stored_row = refl

proposal_immutable_example :
    (row : ProposalRow) × (lookup "p1" once.db.proposals ≡ some row) × SameTicket accepted_row row
proposal_immutable_example =
    proposal_immutable service approvals "p1" accepted_row
      (next here (executes start call "u1" (order confirmation))) stored_row
