-- ===== src/Approval.antt =====
-- japan_agent/approve/service.py: ApprovalService over the database and the ledger.
pub mod Frame
pub mod Kept
pub mod Telegram
mod Tests
use japan_agent.Base.{Bool, true, false, Option, none, some, String, Result, ok, err, map_err, ◌≡◌}
use japan_agent.Base.Text.{is_blank, strip}
use japan_agent.Base.Exec.{Exec, pure, raise, lift, ◌>>=◌, ◌>>◌, raise_if}
use japan_agent.Time.{Instant, Datetime, ensure_utc, TimeError}
use japan_agent.Models.Ticket.{TradeTicket}
use japan_agent.Storage.Ledger.{Core, append_event}
use japan_agent.Storage.Rows.{
  Database, DbError, ProposalRow, Payload, proposal_created, proposal_approved, proposal_rejected,
}
use japan_agent.Storage.Proposals.{create_proposal, decide_proposal}

pub data ApprovalError : Type 0 where
  database_failed : DbError → ApprovalError
  ledger_failed naive_time reason_required : ApprovalError

abbrev pub Act : Type 0 → Type 0
Act A = Exec Database ApprovalError A

-- What the service is built with.
pub record ApprovalService : Type 0 where
  pub fingerprint : TradeTicket → String
  pub hash : Core Payload → String

abbrev pub stored : {A : Type 0} → Exec Database DbError A → Act A
stored m db = let (r, db') = m db in (map_err database_failed r, db')

unfoldable pub record_event :
    ApprovalService → String → String → String → Payload → Instant → Act (Unit {0})
record_event service event_id kind id payload now db =
    let (r, events) = append_event service.hash event_id kind (some id) payload now db.events in
    (elim r [ ok _ ↦ ok tt | err _ ↦ err ledger_failed ], record db { events = events })

abbrev pub utc : Datetime → Result ApprovalError Instant
utc t = elim (ensure_utc t) [ ok i ↦ ok i | err _ ↦ err naive_time ]

unfoldable pub submit : ApprovalService → TradeTicket → String → Act (Unit {0})
submit service t event_id = do
  stored (create_proposal service.fingerprint t)
  record_event service event_id "PROPOSAL_CREATED" t.proposal_id
      (proposal_created t (service.fingerprint t)) t.created_at

unfoldable pub approve :
    ApprovalService → String → String → String → Datetime → String → Act ProposalRow
approve service id approver expected_hash now event_id = do
  instant ← lift (utc now)
  row ← stored (decide_proposal id true approver instant expected_hash none)
  record_event service event_id "PROPOSAL_APPROVED" id
      (proposal_approved approver expected_hash instant) instant
  pure row

unfoldable pub reject :
    ApprovalService → String → String → String → String → Datetime → String → Act ProposalRow
reject service id approver expected_hash reason now event_id = do
  raise_if (is_blank reason) reason_required
  instant ← lift (utc now)
  row ← stored (decide_proposal id false approver instant expected_hash (some (strip reason)))
  record_event service event_id "PROPOSAL_REJECTED" id
      (proposal_rejected approver (strip reason) expected_hash) instant
  pure row
