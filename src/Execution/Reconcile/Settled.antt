-- ===== src/Execution/Reconcile/Settled.antt =====
-- Every ending of a reconciliation.
use japan_agent.Base.{
  ◌≡◌, ◌≢◌, refl, ◌⊎◌, inl, inr, Bool-cases, Option, none, some, Option-cases, false, List, String,
  str_eq, str_eq_iff, Result, ok, err, arith,
}
use japan_agent.Base.Table.{lookup}
use japan_agent.Time.{Instant, Datetime, naive, aware}
use japan_agent.Storage.Rows.{
  BrokerOrder, ExecutionRow, Database, execution_not_found, order_status,
}
use japan_agent.Storage.Executions.{get_execution}
use japan_agent.Execution.Errors.{
  ExecutionError, manual, no_order_id, database_failed, ledger_failed, naive_time,
}
use japan_agent.Execution.Broker.{BrokerReply}
use japan_agent.Execution.Submit
use japan_agent.Execution.Submit.{World, Run, Service, append}
use japan_agent.Execution.Reconcile.{find_response, outcome_of, known_order_id, reconcile}
use japan_agent.Execution.Reconcile.Answered.{Answered, Unanswered, find_response_cases}
use japan_agent.Execution.Reconcile.Follows.{
  Follows, written, written-Settled, Settled-Follows, appended-Settled,
}

-- What was returned or raised, and the world after it.
abbrev pub Ending : Type 0
Ending = Result ExecutionError BrokerOrder × World

-- The execution of which the broker can be asked.
abbrev pub IsKnown : String → ExecutionRow → String → World → Type 0
IsKnown id row order_id w =
    (lookup id w.db.executions ≡ some row) × (row.broker_order_id ≡ some order_id) × (order_id ≢ "")

-- Why nothing can be reconciled.
abbrev pub IsUnsettled :
    String → Datetime → BrokerReply → Option (List BrokerOrder) → World → Type 0
IsUnsettled id now reply history w =
    (lookup id w.db.executions ≡ none)
    ⊎ (((row : ExecutionRow) × (lookup id w.db.executions ≡ some row)
          × ((row.broker_order_id ≡ none) ⊎ (row.broker_order_id ≡ some "")))
        ⊎ (((row : ExecutionRow) × (order_id : String) × IsKnown id row order_id w
              × Unanswered order_id reply history)
            ⊎ ((local : Instant) × (now ≡ naive local))))

known_order_id_cases :
    (row : ExecutionRow)
    → ((order_id : String) × (known_order_id row ≡ ok order_id)
        × (row.broker_order_id ≡ some order_id)
        × (order_id ≢ ""))
      ⊎ ((known_order_id row ≡ err (manual no_order_id))
          × ((row.broker_order_id ≡ none) ⊎ (row.broker_order_id ≡ some "")))
unfolding known_order_id
known_order_id_cases row = elim (Option-cases row.broker_order_id) [
  | inl e ↦ inr (rw e refl, inl e)
  | inr (order_id, e) ↦ elim (Bool-cases (str_eq order_id "")) [
    | inl empty ↦ inr (rw (e, empty) refl, inr (rw (← (str_eq_iff order_id "").0 empty) e))
    | inr full ↦
        inl (order_id, rw (e, full) refl, e, λ h. ground (arith, str_eq_iff order_id "", h))
  ]
]

missing :
    (id : String) (db : Database)
    → lookup id db.executions ≡ none
    → get_execution db id ≡ err execution_not_found
unfolding get_execution
missing id db h = rw (h, get_execution) refl

executed :
    (id : String) (row : ExecutionRow) (db : Database)
    → lookup id db.executions ≡ some row
    → get_execution db id ≡ ok (record { row = row; is_new = false })
unfolding get_execution
executed id row db found = rw (found, get_execution) refl

module _ (service : Service) (id : String) (event_id : String) (reply : BrokerReply)
    (history : Option (List BrokerOrder)) (w : World) where
  absent_row :
      (now : Datetime)
      → get_execution w.db id ≡ err execution_not_found
      → reconcile service id now event_id reply history w
        ≡ (err (database_failed execution_not_found), w)
  unfolding reconcile
  absent_row now h = ground (arith, h)

  module _ (row : ExecutionRow)
      (found : get_execution w.db id ≡ ok (record { row = row; is_new = false })) where
    unknown_order :
        (now : Datetime) (e : ExecutionError)
        → known_order_id row ≡ err e
        → reconcile service id now event_id reply history w ≡ (err e, w)
    unfolding reconcile
    unknown_order now e h = ground (arith, found, h)

    module _ (order_id : String) (known : known_order_id row ≡ ok order_id) where
      unanswered_order :
          (now : Datetime) (e : ExecutionError)
          → find_response order_id reply history ≡ err e
          → reconcile service id now event_id reply history w ≡ (err e, w)
      unfolding reconcile
      unanswered_order now e h = ground (arith, found, known, h)

      module _ (o : BrokerOrder) (answered : find_response order_id reply history ≡ ok o) where
        naive_clock :
            (local : Instant)
            → reconcile service id (naive local) event_id reply history w ≡ (err naive_time, w)
        unfolding reconcile
        naive_clock local = ground (arith, found, known, answered)

        module _ (now : Instant) where
          abbrev event : Run (Unit {0})
          event w' =
              append service event_id (outcome_of o).event id (order_status order_id o.status) now
                w'

          reconcile-eq :
              (reconcile service id (aware now) event_id reply history w).1
              ≡ (event (written id order_id o row now w)).1
          unfolding reconcile japan_agent.Execution.Submit.update
          reconcile-eq = ground (arith, found, known, answered)

          returned :
              ((reconcile service id (aware now) event_id reply history w).0 ≡ ok o)
              ⊎ ((reconcile service id (aware now) event_id reply history w).0 ≡ err ledger_failed)
          unfolding reconcile append japan_agent.Execution.Submit.update
          returned = ground (arith, found, known, answered)

-- The order that the broker gives is written and returned, unless its event cannot be appended.
abbrev pub IsReconciled :
    String → Instant → BrokerReply → Option (List BrokerOrder) → World → Ending → Type 0
IsReconciled id now reply history w ending =
    (row : ExecutionRow) × (order_id : String) × (o : BrokerOrder) × IsKnown id row order_id w
    × Answered order_id reply history o
    × Follows id o row now w ending.1
    × ((ending.0 ≡ ok o) ⊎ (ending.0 ≡ err ledger_failed))

-- The ways in which a reconciliation can end.
abbrev pub IsSettled :
    String → Datetime → BrokerReply → Option (List BrokerOrder) → World → Ending → Type 0
IsSettled id now reply history w ending =
    ((t : Instant) × (now ≡ aware t) × IsReconciled id t reply history w ending)
    ⊎ (IsUnsettled id now reply history w × ((e : ExecutionError) × (ending ≡ (err e, w))))

module _ (service : Service) (id : String) (event_id : String) (reply : BrokerReply)
    (history : Option (List BrokerOrder)) (w : World) where
  settle_order :
      (now : Datetime) (row : ExecutionRow) (order_id : String) (o : BrokerOrder)
      → IsKnown id row order_id w
      → known_order_id row ≡ ok order_id
      → find_response order_id reply history ≡ ok o
      → Answered order_id reply history o
      → IsSettled id now reply history w (reconcile service id now event_id reply history w)
  settle_order (naive local) row order_id o k known found given = inr (
    inr (inr (inr (local, refl))),
    (
      naive_time,
      naive_clock service id event_id reply history w row (executed id row w.db k.0) order_id known
          o found local,
    ),
  )
  settle_order (aware t) row order_id o k known found given =
      let stored = executed id row w.db k.0 in
      inl (
        t,
        refl,
        (
          row,
          order_id,
          o,
          k,
          given,
          rw (reconcile-eq service id event_id reply history w row stored order_id known o found t)
              (Settled-Follows id o row t w _ (
                appended-Settled id o row t w (written id order_id o row t w) service event_id
                  (outcome_of o).event (order_status order_id o.status)
                  (written-Settled id order_id o row t w k.0 k.1))),
          returned service id event_id reply history w row stored order_id known o found t,
        ),
      )

  ask_broker :
      (now : Datetime) (row : ExecutionRow) (order_id : String)
      → IsKnown id row order_id w
      → known_order_id row ≡ ok order_id
      → IsSettled id now reply history w (reconcile service id now event_id reply history w)
  ask_broker now row order_id k known = elim (find_response_cases order_id reply history) [
    | inl (o, found, given) ↦ settle_order now row order_id o k known found given
    | inr (e, failed, none_given) ↦ inr (
      inr (inr (inl (row, order_id, k, none_given))),
      (
        e,
        unanswered_order service id event_id reply history w row (executed id row w.db k.0) order_id
            known now e failed,
      ),
    )
  ]

-- A reconciliation at a time with a zone, of an execution with an order id whose order the broker
-- gives (from the pending endpoint, or after a 404 as the first of the history with that id),
-- writes the broker's view: FILLED, and traded now, if the order is filled; FAILED, and traded
-- when it was, if it is rejected or cancelled; SUBMITTED, and traded now, otherwise; each for
-- execution and proposal, with the order as response. No other row changes, no order is sent, and
-- the order is returned unless the event cannot be appended. Otherwise the execution is missing or
-- has no order id, the broker gives no order, or the time has no zone; it raises and changes
-- nothing.
pub reconcile-Settled :
    (service : Service) (id event_id : String) (reply : BrokerReply)
    (history : Option (List BrokerOrder)) (w : World) (now : Datetime)
    → IsSettled id now reply history w (reconcile service id now event_id reply history w)
reconcile-Settled service id event_id reply history w now =
    elim (Option-cases (lookup id w.db.executions)) [
      | inl gone ↦ inr (
        inl gone,
        (
          database_failed execution_not_found,
          absent_row service id event_id reply history w now (missing id w.db gone),
        ),
      )
      | inr (row, found) ↦ elim (known_order_id_cases row) [
        | inl (order_id, known, at, full) ↦
            ask_broker service id event_id reply history w now row order_id (found, at, full) known
        | inr (unknown, why) ↦ inr (
          inr (inl (row, found, why)),
          (
            manual no_order_id,
            unknown_order service id event_id reply history w row (executed id row w.db found) now
                (manual no_order_id) unknown,
          ),
        )
      ]
    ]
