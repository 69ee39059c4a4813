-- ===== src/Execution/Reconcile.antt =====
-- ExecutionService.reconcile: the broker's view of an order is written to the database. The
-- answers of the two broker endpoints are arguments.
pub mod Answered
pub mod Follows
pub mod Settled
use japan_agent.Base.{
  not, Option, none, some, get_or, List, [], ◌∷◌, String, str_eq, Result, ok, err, if◌then◌else◌,
  ◌==◌, ◌||◌,
}
use japan_agent.Base.Text.{upper_is}
use japan_agent.Base.Exec.{pure, lift, ◌>>=◌, ◌>>◌}
use japan_agent.Time.{Datetime}
use japan_agent.Models.Enums.{ProposalStatus, submitted, filled, failed}
use japan_agent.Storage.Rows.{BrokerOrder, ExecutionRow, ExecutionState, DbError, order_status}
use japan_agent.Storage.Executions.{get_execution}
use japan_agent.Execution.Errors.{
  ExecutionError, manual, no_order_id, order_absent, database_failed, broker_failed,
  undecodable_answer,
}
use japan_agent.Execution.Broker.{BrokerReply, order, failure, rejected, escaped}
use japan_agent.Execution.Preflight.{utc}
use japan_agent.Execution.Submit.{Run, Service, of_result, update, append}

-- `for item in history: if str(item.get("id")) == broker_order_id: …; break`
unfoldable pub find_order : String → List BrokerOrder → Option BrokerOrder
find_order id [] = none
find_order id (o ∷ os) = if str_eq (get_or o.id "None") id then some o else find_order id os

-- A 404 of the pending endpoint leads to the history; `none` is a history that raised.
unfoldable pub find_response :
    String → BrokerReply → Option (List BrokerOrder) → Result ExecutionError BrokerOrder
unfolding find_order
find_response id (order o) history = ok o
find_response id (failure (rejected status)) history =
    if not (status == 404) then err broker_failed else elim history [
      | none ↦ err broker_failed
      | some os ↦ elim (find_order id os) [ none ↦ err (manual order_absent) | some o ↦ ok o ]
    ]
find_response id (failure escaped) history = err undecodable_answer
find_response id (failure _) history = err broker_failed

-- The state, the proposal's status and the event for a broker status.
pub record Outcome : Type 0 where
  pub state : ExecutionState
  pub status : ProposalStatus
  pub event : String

unfoldable pub outcome_of : BrokerOrder → Outcome
outcome_of o =
    if upper_is o.status "FILLED"
    then (record { state = ExecutionState.filled; status = filled; event = "ORDER_FILLED" })
    else if upper_is o.status "REJECTED" || upper_is o.status "CANCELLED"
    then (record {
      state = ExecutionState.failed;
      status = failed;
      event = "ORDER_TERMINAL_WITHOUT_FILL";
    })
    else (record {
      state = ExecutionState.submitted;
      status = submitted;
      event = "ORDER_RECONCILED_OPEN";
    })

-- `if not claim.broker_order_id`
unfoldable pub known_order_id : ExecutionRow → Result ExecutionError String
known_order_id row = elim row.broker_order_id [
  | none ↦ err (manual no_order_id)
  | some id ↦ if str_eq id "" then err (manual no_order_id) else ok id
]

unfoldable pub reconcile :
    Service → String → Datetime → String → BrokerReply → Option (List BrokerOrder) → Run BrokerOrder
unfolding find_response outcome_of known_order_id
reconcile service id now event_id reply history = do
  claim ← (λ w. (of_result DbError database_failed (get_execution w.db id), w))
  order_id ← lift (known_order_id claim.row)
  o ← lift (find_response order_id reply history)
  instant ← lift (utc now)
  update id (outcome_of o).state instant (some o) (some order_id) none (outcome_of o).status
  append service event_id (outcome_of o).event id (order_status order_id o.status) instant
  pure o
