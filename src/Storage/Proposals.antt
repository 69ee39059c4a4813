-- ===== src/Storage/Proposals.antt =====
-- The operations of japan_agent/storage.py on proposals. Each runs in one transaction.
pub mod Decide
pub mod Kept
use japan_agent.Base.{
  ◌≡◌, Bool, true, false, ◌&&◌, ◌||◌, not, Option, none, some, is_some, List, [], ◌∷◌, any, String,
  str_eq, Result, ok, err, if◌then◌else◌, leb,
}
use japan_agent.Base.Table.{Table, lookup, insert, update}
use japan_agent.Base.Exec.{Exec}
use japan_agent.Time.{Instant}
use japan_agent.Models.Enums.{
  ProposalStatus, pending, approved, rejected, expired, submitted, reconciliation_required,
  is_pending, action_value,
}
use japan_agent.Models.Ticket.{TradeTicket}
use japan_agent.Storage.Iso.{iso_le}
use japan_agent.Storage.Rows.{
  ProposalRow, Database, DbError, integrity_error, proposal_not_found, already_decided,
  hash_mismatch, proposal_expired,
}

abbrev pub with_proposals : Database → Table ProposalRow → Database
with_proposals db rows = record db { proposals = rows }

-- The UNIQUE constraint on ticket_hash.
unfoldable pub hash_taken : String → Table ProposalRow → Bool
hash_taken hash rows = any (λ e. str_eq e.1.ticket_hash hash) rows

-- `ticket.fingerprint` is the parameter `fingerprint`.
unfoldable pub create_proposal :
    (TradeTicket → String) → TradeTicket → Exec Database DbError (Unit {0})
create_proposal fingerprint t db =
    let row : ProposalRow = record {
      ticket = t;
      status = pending;
      ticket_hash = fingerprint t;
      expires_at = t.expires_at;
      approved_by = none;
      approved_at = none;
      rejection_reason = none;
    } in
    if is_some (lookup t.proposal_id db.proposals) || hash_taken (fingerprint t) db.proposals
    then (err integrity_error, db)
    else (ok tt, with_proposals db (insert t.proposal_id row db.proposals))

unfoldable pub get_proposal : Database → String → Option ProposalRow
get_proposal db id = lookup id db.proposals

abbrev pub set_status : ProposalStatus → ProposalRow → ProposalRow
set_status status row = record row { status = status }

abbrev pub decided : Bool → String → Instant → Option String → ProposalRow → ProposalRow
decided approve approver now reason row = record row {
  status = if approve then approved else rejected;
  approved_by = some approver;
  approved_at = some now;
  rejection_reason = reason;
}

-- `stored = self.get_proposal(proposal_id)` after the transaction
unfoldable pub reread : String → Exec Database DbError ProposalRow
unfolding get_proposal
reread id db = elim (get_proposal db id) [
  | none ↦ (err proposal_not_found, db)
  | some row ↦ (ok row, db)
]

-- The branches of decide_proposal on the row that it finds. The expiry is written and committed
-- before the error is raised.
unfoldable pub decide_row :
    String
    → Bool
    → String
    → Instant
    → String
    → Option String
    → ProposalRow
    → Exec Database DbError ProposalRow
unfolding reread
decide_row id approve approver now expected_hash reason row db =
    if not (is_pending row.status)
    then (err already_decided, db)
    else if not (str_eq row.ticket_hash expected_hash)
    then (err hash_mismatch, db)
    else if leb row.expires_at now
    then (err proposal_expired, with_proposals db (update id (set_status expired) db.proposals))
    else reread id
        (with_proposals db (update id (decided approve approver now reason) db.proposals))

unfoldable pub decide_proposal :
    String → Bool → String → Instant → String → Option String → Exec Database DbError ProposalRow
unfolding decide_row
decide_proposal id approve approver now expected_hash reason db = elim (lookup id db.proposals) [
  | none ↦ (err proposal_not_found, db)
  | some row ↦ decide_row id approve approver now expected_hash reason row db
]

-- `status IN ('PENDING', 'APPROVED')`
abbrev pub is_undelivered : ProposalStatus → Bool
is_undelivered pending = true
is_undelivered approved = true
is_undelivered _ = false

-- `status IN ('PENDING', 'APPROVED', 'SUBMITTED', 'RECONCILIATION_REQUIRED')`
abbrev pub is_open : ProposalStatus → Bool
is_open pending = true
is_open approved = true
is_open submitted = true
is_open reconciliation_required = true
is_open _ = false

abbrev pub expire : ProposalRow → ProposalRow
expire row = if is_undelivered row.status then set_status expired row else row

unfoldable pub mark_expired : String → Database → Database
mark_expired id db = with_proposals db (update id expire db.proposals)

-- The WHERE clause of has_open_duplicate; the expiry is compared as text.
unfoldable pub blocks : String → String → Instant → ProposalRow → Bool
blocks ticker side now row =
    is_open row.status
    && (str_eq row.ticket.ticker ticker
        && (str_eq (action_value row.ticket.side) side
            && not (is_undelivered row.status && iso_le row.expires_at now)))

unfoldable pub has_open_duplicate : Database → String → String → Instant → Bool
unfolding blocks
has_open_duplicate db ticker side now = any (λ e. blocks ticker side now e.1) db.proposals
