-- ===== src/Execution/Errors.antt =====
-- The exceptions of japan_agent/execute/service.py and those that pass through it.
use japan_agent.Base.{ℕ}
use japan_agent.Base.Decimal.{DecimalError}
use japan_agent.Risk.Policy.{RiskError}
use japan_agent.Models.Enums.{ProposalStatus}
use japan_agent.Storage.Rows.{DbError}

-- The messages of ExecutionBlocked.
pub data BlockReason : Type 0 where
  kill_switch no_acknowledgement no_consent no_gate_file gate_permissions gate_malformed :
      BlockReason
  no_human_approver consent_mismatch too_few_days dates_do_not_support gates_not_passed :
      BlockReason
  review_in_future no_proposal integrity approval_missing ticket_expired : BlockReason
  quote_ticker quote_age quote_price price_moved portfolio_source portfolio_age : BlockReason
  risk_check : RiskError → BlockReason
  not_approved : ProposalStatus → BlockReason
  broker_rejected : ℕ → BlockReason

-- The messages of ManualReconciliationRequired.
pub data ManualReason : Type 0 where
  no_stored_response earlier_unknown existing_execution outcome_unknown ambiguous_response :
      ManualReason
  no_order_id order_absent : ManualReason

pub data ExecutionError : Type 0 where
  blocked : BlockReason → ExecutionError
  manual : ManualReason → ExecutionError
  naive_time : ExecutionError
  decimal_failed : DecimalError → ExecutionError
  risk_failed : RiskError → ExecutionError
  database_failed : DbError → ExecutionError
  ledger_failed : ExecutionError
  whitelist_environment : ExecutionError
  broker_failed undecodable_answer : ExecutionError
