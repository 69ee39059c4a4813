-- ===== src/Storage/Executions.antt =====
-- The operations of japan_agent/storage.py on executions.
use japan_agent.Base.{
  Bool, true, false, Option, none, some, is_some, List, [], ◌∷◌, String, Result, ok, err,
  if◌then◌else◌,
}
use japan_agent.Base.Table.{lookup, insert, update}
use japan_agent.Base.Exec.{Exec}
use japan_agent.Time.{Instant}
use japan_agent.Models.Enums.{ProposalStatus}
use japan_agent.Storage.Iso.{iso_le}
use japan_agent.Storage.Rows.{
  ExecutionRow, ExecutionState, claimed, submitted, unknown, filled, OrderRequest, BrokerOrder,
  ErrorText, Database, DbError, integrity_error, execution_not_found,
}
use japan_agent.Storage.Proposals.{set_status}

-- ExecutionClaim
pub record ExecutionClaim : Type 0 where
  pub row : ExecutionRow
  pub is_new : Bool

-- COALESCE(new, old)
abbrev pub coalesce : {A : Type 0} → Option A → Option A → Option A
coalesce none old = old
coalesce (some a) old = some a

abbrev pub claim_row : OrderRequest → Instant → ExecutionRow
claim_row request now = record {
  state = claimed;
  request = request;
  response = none;
  broker_order_id = none;
  submitted_at = none;
  updated_at = now;
  error = none;
}

-- The row is inserted unless there is one; its key refers to a proposal.
unfoldable pub claim_execution :
    String → OrderRequest → Instant → Exec Database DbError ExecutionClaim
claim_execution id request now db = elim (lookup id db.executions) [
  | some row ↦ (ok (record { row = row; is_new = false }), db)
  | none ↦
      if is_some (lookup id db.proposals)
      then (
        ok (record { row = claim_row request now; is_new = true }),
        record db { executions = insert id (claim_row request now) db.executions },
      )
      else (err integrity_error, db)
]

-- KeyError where there is no row
unfoldable pub get_execution : Database → String → Result DbError ExecutionClaim
get_execution db id = elim (lookup id db.executions) [
  | none ↦ err execution_not_found
  | some row ↦ ok (record { row = row; is_new = false })
]

-- `state in {"SUBMITTED", "UNKNOWN", "FILLED"}`
abbrev pub counts_as_trade : ExecutionState → Bool
counts_as_trade submitted = true
counts_as_trade unknown = true
counts_as_trade filled = true
counts_as_trade _ = false

unfoldable pub updated_row :
    ExecutionState
    → Instant
    → Option BrokerOrder
    → Option String
    → Option ErrorText
    → ExecutionRow
    → ExecutionRow
updated_row state now response broker_order_id error row = record row {
  state = state;
  response = coalesce response row.response;
  broker_order_id = coalesce broker_order_id row.broker_order_id;
  submitted_at = coalesce (if counts_as_trade state then some now else none) row.submitted_at;
  updated_at = now;
  error = error;
}

-- Both tables are updated in one transaction; every caller gives the proposal's status.
unfoldable pub update_execution :
    String
    → ExecutionState
    → Instant
    → Option BrokerOrder
    → Option String
    → Option ErrorText
    → ProposalStatus
    → Database
    → Database
unfolding updated_row
update_execution id state now response broker_order_id error status db = record db {
  executions = update id (updated_row state now response broker_order_id error) db.executions;
  proposals = update id (set_status status) db.proposals;
}

-- `submitted_at IS NOT NULL AND submitted_at >= ?`, compared as text
abbrev pub submitted_since : Instant → List (String × ExecutionRow) → List Instant
submitted_since since [] = []
submitted_since since ((id, row) ∷ rows) =
    let rest = submitted_since since rows in
    elim row.submitted_at [ none ↦ rest | some t ↦ if iso_le since t then t ∷ rest else rest ]

unfoldable pub submitted_trade_times : Database → Instant → List Instant
submitted_trade_times db since = submitted_since since db.executions
