-- ===== src/Execution/Reconcile/Follows.antt =====
-- What a reconciliation writes of the broker's order.
use japan_agent.Base.{
  ◌≡◌, ◌≢◌, refl, ◌⊎◌, inl, inr, ◌||◌, Bool-cases, Bool, true, false, Option, none, some, String,
  str_eq_iff, str_eq_refl, arith, if◌then◌else◌,
}
use japan_agent.Base.Table.{lookup, lookup-update}
use japan_agent.Base.Text.{upper_is}
use japan_agent.Models.Enums.{ProposalStatus, submitted, filled, failed}
use japan_agent.Time.{Instant}
use japan_agent.Storage.Rows.{BrokerOrder, ExecutionRow, ExecutionState, ProposalRow, Payload}
use japan_agent.Storage.Proposals.{set_status}
use japan_agent.Storage.Executions.{coalesce, counts_as_trade, update_execution, updated_row}
use japan_agent.Execution.Submit.{World, Service, append}
use japan_agent.Execution.Reconcile.{outcome_of}

-- The rows of the execution and of the proposal are given the states and the broker's order, and
-- nothing else changes; `traded` is the time of the trade.
pub record Settled (id : String) (o : BrokerOrder) (row : ExecutionRow) (now : Instant)
    (state : ExecutionState) (status : ProposalStatus) (traded : Option Instant) (w w' : World)
    : Type 0 where
  pub execution :
      lookup id w'.db.executions
      ≡ some (record row {
        state = state;
        response = some o;
        submitted_at = traded;
        updated_at = now;
        error = none;
      })
  pub proposal :
      (p : ProposalRow)
      → lookup id w.db.proposals ≡ some p
      → lookup id w'.db.proposals ≡ some (set_status status p)
  pub other_executions :
      (j : String) → j ≢ id → lookup j w'.db.executions ≡ lookup j w.db.executions
  pub other_proposals : (j : String) → j ≢ id → lookup j w'.db.proposals ≡ lookup j w.db.proposals
  pub same_sent : w'.sent ≡ w.sent

-- `status in {"REJECTED", "CANCELLED"}`
abbrev pub EndsUnfilled : BrokerOrder → Type 0
EndsUnfilled o = (upper_is o.status "REJECTED" ≡ true) ⊎ (upper_is o.status "CANCELLED" ≡ true)

-- An order that is filled was traded now; one that ended without a fill failed, and keeps its
-- time; any other is open.
abbrev pub Follows : String → BrokerOrder → ExecutionRow → Instant → World → World → Type 0
Follows id o row now w w' =
    ((upper_is o.status "FILLED" ≡ true)
      × Settled id o row now ExecutionState.filled filled (some now) w w')
    ⊎ (((upper_is o.status "FILLED" ≡ false)
          × EndsUnfilled o
          × Settled id o row now ExecutionState.failed failed row.submitted_at w w')
        ⊎ ((upper_is o.status "FILLED" ≡ false)
            × (EndsUnfilled o → ⊥)
            × Settled id o row now ExecutionState.submitted submitted (some now) w w'))

module _ (id order_id : String) (o : BrokerOrder) (row : ExecutionRow) (now : Instant)
    (w : World) where
  abbrev pub written : World
  written = record w {
    db =
        update_execution id (outcome_of o).state now (some o) (some order_id) none
          (outcome_of o).status w.db;
  }

  same_row :
      (b : Bool)
      → some (record row {
        state = (outcome_of o).state;
        response = some o;
        broker_order_id = row.broker_order_id;
        submitted_at = coalesce (if b then some now else none) row.submitted_at;
        updated_at = now;
        error = none;
      })
        ≡ some (record row {
          state = (outcome_of o).state;
          response = some o;
          submitted_at = if b then some now else row.submitted_at;
          updated_at = now;
          error = none;
        })
  same_row true = refl
  same_row false = refl

  pub written-Settled :
      lookup id w.db.executions ≡ some row
      → row.broker_order_id ≡ some order_id
      → Settled id o row now
          (outcome_of o).state
          (outcome_of o).status
          (if counts_as_trade (outcome_of o).state then some now else row.submitted_at)
          w
          written
  unfolding update_execution updated_row
  written-Settled found known = record {
    execution =
        rw
          (
            lookup-update id id (updated_row (outcome_of o).state now (some o) (some order_id) none)
                w.db.executions,
            str_eq_refl id,
            found,
          )
          (rw (← known) (same_row (counts_as_trade (outcome_of o).state)));
    proposal = λ p h.
        rw
          (lookup-update id id (set_status (outcome_of o).status) w.db.proposals, str_eq_refl id, h)
          refl;
    other_executions = λ j e. ground (
      arith,
      lookup-update j id (updated_row (outcome_of o).state now (some o) (some order_id) none)
          w.db.executions,
      str_eq_iff id j,
      e,
    );
    other_proposals = λ j e. ground (
      arith,
      lookup-update j id (set_status (outcome_of o).status) w.db.proposals,
      str_eq_iff id j,
      e,
    );
    same_sent = refl;
  }

-- The outcome for a broker status.
filled_outcome :
    (o : BrokerOrder)
    → upper_is o.status "FILLED" ≡ true
    → outcome_of o
      ≡ record { state = ExecutionState.filled; status = filled; event = "ORDER_FILLED" }
unfolding outcome_of
filled_outcome o h = rw h refl

unfilled_outcome :
    (o : BrokerOrder)
    → upper_is o.status "FILLED" ≡ false
    → upper_is o.status "REJECTED" || upper_is o.status "CANCELLED" ≡ true
    → outcome_of o ≡ record {
      state = ExecutionState.failed;
      status = failed;
      event = "ORDER_TERMINAL_WITHOUT_FILL";
    }
unfolding outcome_of
unfilled_outcome o h k = rw (h, k) refl

open_outcome :
    (o : BrokerOrder)
    → upper_is o.status "FILLED" ≡ false
    → upper_is o.status "REJECTED" || upper_is o.status "CANCELLED" ≡ false
    → outcome_of o ≡ record {
      state = ExecutionState.submitted;
      status = submitted;
      event = "ORDER_RECONCILED_OPEN";
    }
unfolding outcome_of
open_outcome o h k = rw (h, k) refl

either : (a b : Bool) → a || b ≡ true → (a ≡ true) ⊎ (b ≡ true)
either a b h = ground arith

neither : (a b : Bool) → a || b ≡ false → (a ≡ true) ⊎ (b ≡ true) → ⊥
neither a b h k = ground (arith, k)

module _ (id : String) (o : BrokerOrder) (row : ExecutionRow) (now : Instant) (w w' : World) where
  pub Settled-Follows :
      Settled id o row now
        (outcome_of o).state
        (outcome_of o).status
        (if counts_as_trade (outcome_of o).state then some now else row.submitted_at)
        w
        w'
      → Follows id o row now w w'
  Settled-Follows s = elim (Bool-cases (upper_is o.status "FILLED")) [
    | inl fill ↦ inl (fill, rw (filled_outcome o fill) at s)
    | inr other ↦
        elim (Bool-cases (upper_is o.status "REJECTED" || upper_is o.status "CANCELLED")) [
          | inl ended ↦
              inr (inl (other, either _ _ ended, rw (unfilled_outcome o other ended) at s))
          | inr live ↦ inr (inr (other, neither _ _ live, rw (open_outcome o other live) at s))
        ]
  ]

  -- The events are not among what follows.
  pub appended-Settled :
      {state : ExecutionState} {status : ProposalStatus} {traded : Option Instant}
      → (service : Service) (event_id kind : String) (payload : Payload)
      → Settled id o row now state status traded w w'
      → Settled id o row now state status traded w
          (append service event_id kind id payload now w').1
  unfolding append
  appended-Settled service event_id kind payload s = record {
    execution = s.execution;
    proposal = s.proposal;
    other_executions = s.other_executions;
    other_proposals = s.other_proposals;
    same_sent = s.same_sent;
  }
