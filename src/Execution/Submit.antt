-- ===== src/Execution/Submit.antt =====
-- ExecutionService.execute. The world is the database and the orders sent to the broker; the
-- answer to an order is an argument, and so are the uuids of the events.
use japan_agent.Base.{
  Bool, true, false, ◌||◌, not, Option, none, some, is_some, get_or, List, [], ◌∷◌, ◌++◌, String,
  str_eq, Result, ok, err, if◌then◌else◌, leb,
}
use japan_agent.Base.Decimal.{Decimal, eq}
use japan_agent.Base.Text.{upper_is}
use japan_agent.Base.Exec.{Exec, pure, raise, lift, gets, ◌>>=◌, ◌>>◌}
use japan_agent.Time.{Instant}
use japan_agent.Models.Enums.{
  ProposalStatus, approved, submitted, filled, failed, reconciliation_required, action_value,
}
use japan_agent.Models.Ticket.{TradeTicket}
use japan_agent.Risk.Policy.{RiskPolicy}
use japan_agent.Storage.Ledger.{Core, append_event}
use japan_agent.Storage.Rows.{
  ProposalRow, ExecutionRow, ExecutionState, BrokerOrder, Reported, number, unreadable,
  OrderRequest, ErrorText, rejected_with, transport_uncertain, response_mismatch, Payload,
  order_rejected, reconciliation, order_submitted, Database, DbError,
}
use japan_agent.Storage.Proposals.{get_proposal, mark_expired}
use japan_agent.Storage.Executions.{
  ExecutionClaim, claim_execution, get_execution, update_execution,
}
use japan_agent.Execution.Errors.{
  BlockReason, no_proposal, not_approved, ticket_expired, broker_rejected, no_stored_response,
  earlier_unknown, existing_execution, outcome_unknown, ambiguous_response, ExecutionError, blocked,
  manual, database_failed, ledger_failed, broker_failed, undecodable_answer,
}
use japan_agent.Execution.Broker.{
  rejected, uncertain, unusable, escaped, BrokerReply, order, failure,
}
use japan_agent.Execution.Gate.{Settings, assert_environment_allowed}
use japan_agent.Execution.Preflight.{ExecuteCall, utc, check_approval, preflight, request_of}

-- An order that was sent, with the proposal in whose execution it was sent.
pub record SentOrder : Type 0 where
  pub proposal_id : String
  pub ticker : String
  pub quantity : Decimal

pub record World : Type 0 where
  pub db : Database
  pub sent : List SentOrder

abbrev pub Run : Type 0 → Type 0
Run A = Exec World ExecutionError A

-- What the service is built with and what its environment computes.
pub record Service : Type 0 where
  pub policy : RiskPolicy
  pub settings : Settings
  pub fingerprint : TradeTicket → String
  pub hash : Core Payload → String

abbrev pub of_result :
    {A : Type 0} → (E : Type 0) → (E → ExecutionError) → Result E A → Result ExecutionError A
of_result E f (ok a) = ok a
of_result E f (err e) = err (f e)

unfoldable pub claim : String → OrderRequest → Instant → Run ExecutionClaim
unfolding claim_execution
claim id request now w =
    let (r, db) = claim_execution id request now w.db in
    (of_result DbError database_failed r, record w { db = db })

unfoldable pub append : Service → String → String → String → Payload → Instant → Run (Unit {0})
append service event_id kind id payload now w =
    let (r, events) = append_event service.hash event_id kind (some id) payload now w.db.events in
    (
      elim r [ ok _ ↦ ok tt | err _ ↦ err ledger_failed ],
      record w { db = record w.db { events = events } },
    )

unfoldable pub update :
    String
    → ExecutionState
    → Instant
    → Option BrokerOrder
    → Option String
    → Option ErrorText
    → ProposalStatus
    → Run (Unit {0})
update id state now response broker_order_id error status w = (
  ok tt,
  record w { db = update_execution id state now response broker_order_id error status w.db },
)

-- `_mark_unknown`
unfoldable pub mark_unknown :
    Service
    → String
    → String
    → String
    → Instant
    → ErrorText
    → Option BrokerOrder
    → Option String
    → Run (Unit {0})
mark_unknown service event_id id ticket_hash now error response broker_order_id = do
  update id ExecutionState.unknown now response broker_order_id (some error) reconciliation_required
  append service event_id "ORDER_RECONCILIATION_REQUIRED" id (reconciliation error ticket_hash) now

-- `_quantity_mismatch`
unfoldable pub quantity_mismatch : Option Reported → Decimal → Bool
quantity_mismatch none approved' = false
quantity_mismatch (some (number q)) approved' = not (eq q approved')
quantity_mismatch (some unreadable) approved' = true

-- `value is not None and value != expected`
abbrev pub differs : Option String → String → Bool
differs none expected = false
differs (some text) expected = not (str_eq text expected)

abbrev pub differs_upper : Option String → String → Bool
differs_upper none expected = false
differs_upper (some text) expected = not (upper_is text expected)

-- The response does not confirm the approved ticket.
unfoldable pub is_ambiguous : TradeTicket → BrokerOrder → Bool
unfolding quantity_mismatch
is_ambiguous t o =
    not (is_some o.id)
    || (differs o.ticker t.ticker
        || (differs_upper o.side (action_value t.side)
            || (quantity_mismatch o.quantity t.quantity
                || (o.extended_hours
                    || (upper_is o.status "REJECTED" || upper_is o.status "CANCELLED")))))

-- After the order has been sent: the broker's reply.
unfoldable pub settle_reply :
    Service → String → ProposalRow → String → Instant → BrokerReply → Run BrokerOrder
settle_reply service id row event_id now (failure (rejected status)) = do
  update id ExecutionState.failed now none none (some (rejected_with status)) failed
  append service event_id "ORDER_REJECTED" id (order_rejected status row.ticket_hash) now
  raise (blocked (broker_rejected status))
settle_reply service id row event_id now (failure uncertain) = do
  mark_unknown service event_id id row.ticket_hash now transport_uncertain none none
  raise (manual outcome_unknown)
settle_reply service id row event_id now (failure unusable) = raise broker_failed
settle_reply service id row event_id now (failure escaped) = raise undecodable_answer
settle_reply service id row event_id now (order o) =
    if is_ambiguous row.ticket o
    then (do
      mark_unknown service event_id id row.ticket_hash now response_mismatch (some o) o.id
      raise (manual ambiguous_response))
    else (do
      update id ExecutionState.submitted now (some o) o.id none submitted
      append service event_id "ORDER_SUBMITTED" id
          (order_submitted (get_or o.id "") row.ticket.ticker row.ticket.quantity row.ticket_hash)
          now
      pure o)

unfoldable pub send_order : String → TradeTicket → Run (Unit {0})
send_order id t w = (
  ok tt,
  record w {
    sent = w.sent ++ (record { proposal_id = id; ticker = t.ticker; quantity = t.quantity }) ∷ [];
  },
)

-- A claim that was there already: its response, if the order is known to the broker.
unfoldable pub existing_claim : ExecutionRow → Result ExecutionError BrokerOrder
existing_claim row = elim row.response [
  | none ↦ err (manual existing_execution)
  | some o ↦ elim row.state [
    | ExecutionState.submitted ↦ ok o
    | ExecutionState.filled ↦ ok o
    | _ ↦ err (manual existing_execution)
  ]
]

-- The order is sent if the claim is new.
unfoldable pub after_claim :
    Service
    → String
    → ProposalRow
    → String
    → Instant
    → BrokerReply
    → Result ExecutionError ExecutionClaim
    → Run BrokerOrder
after_claim service id row event_id now reply (err e) w = (err e, w)
after_claim service id row event_id now reply (ok c) w =
    if c.is_new
    then (do send_order id row.ticket; settle_reply service id row event_id now reply) w
    else (existing_claim c.row, w)

unfoldable pub submit :
    Service → String → ProposalRow → String → Instant → BrokerReply → Run BrokerOrder
submit service id row event_id now reply w =
    let (r, w') = claim id (request_of row) now w in
    after_claim service id row event_id now reply r w'

-- From the approval on.
unfoldable pub execute_approved :
    Service → ExecuteCall → ProposalRow → String → Instant → BrokerReply → Run BrokerOrder
execute_approved service call row event_id now reply w =
    elim (check_approval service.fingerprint row) [
      | err e ↦ (err e, w)
      | ok _ ↦
          if leb row.ticket.expires_at now
          then (err (blocked ticket_expired), record w { db = mark_expired call.proposal_id w.db })
          else elim (preflight service.policy service.settings w.db row.ticket call now) [
            | err e ↦ (err e, w)
            | ok _ ↦ submit service call.proposal_id row event_id now reply w
          ]
    ]

-- The stored response of an order that was submitted; the row is found by its key.
unfoldable pub stored_response : String → Database → Result ExecutionError BrokerOrder
stored_response id db = elim (get_execution db id) [
  | err e ↦ err (database_failed e)
  | ok c ↦ elim c.row.response [ none ↦ err (manual no_stored_response) | some o ↦ ok o ]
]

unfoldable pub execute_by_status :
    ProposalStatus
    → Service
    → ExecuteCall
    → ProposalRow
    → String
    → Instant
    → BrokerReply
    → Run BrokerOrder
execute_by_status approved service call row event_id now reply w =
    execute_approved service call row event_id now reply w
execute_by_status submitted service call row event_id now reply w =
    (stored_response call.proposal_id w.db, w)
execute_by_status filled service call row event_id now reply w =
    (stored_response call.proposal_id w.db, w)
execute_by_status reconciliation_required service call row event_id now reply w =
    (err (manual earlier_unknown), w)
execute_by_status other service call row event_id now reply w =
    (err (blocked (not_approved other)), w)

unfoldable pub execute_found :
    Option ProposalRow → Service → ExecuteCall → String → Instant → BrokerReply → Run BrokerOrder
execute_found none service call event_id now reply w = (err (blocked no_proposal), w)
execute_found (some row) service call event_id now reply w =
    execute_by_status row.status service call row event_id now reply w

unfoldable pub execute : Service → ExecuteCall → String → BrokerReply → Run BrokerOrder
execute service call event_id reply = do
  now ← lift (utc call.now)
  lift (of_result BlockReason blocked (assert_environment_allowed service.settings now))
  found ← gets (λ w. get_proposal w.db call.proposal_id)
  execute_found found service call event_id now reply
