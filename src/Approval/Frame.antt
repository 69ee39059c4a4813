-- ===== src/Approval/Frame.antt =====
-- What the approval service does to the executions.
use japan_agent.Base.{◌≡◌, Bool, Option, String, arith}
use japan_agent.Time.{Instant, Datetime}
use japan_agent.Models.Ticket.{TradeTicket}
use japan_agent.Storage.Rows.{Database, ProposalRow}
use japan_agent.Storage.Proposals.{create_proposal, decide_proposal, decide_row}
use japan_agent.Approval.{ApprovalService, submit, approve, reject, record_event}

create_proposal-executions :
    (fingerprint : TradeTicket → String) (t : TradeTicket) (db : Database)
    → (create_proposal fingerprint t db).1.executions ≡ db.executions
unfolding create_proposal
create_proposal-executions fingerprint t db = ground arith

decide_row-executions :
    (id : String) (yes' : Bool) (who : String) (now : Instant) (hash : String)
    (reason : Option String) (row : ProposalRow) (db : Database)
    → (decide_row id yes' who now hash reason row db).1.executions ≡ db.executions
unfolding decide_row
decide_row-executions id yes' who now hash reason row db = ground arith

decide_proposal-executions :
    (id : String) (yes' : Bool) (who : String) (now : Instant) (hash : String)
    (reason : Option String) (db : Database)
    → (decide_proposal id yes' who now hash reason db).1.executions ≡ db.executions
unfolding decide_proposal
decide_proposal-executions id yes' who now hash reason db =
    ground (arith, λ (row : ProposalRow). decide_row-executions id yes' who now hash reason row db)

module _ (service : ApprovalService) (db : Database) (event_id : String) where
  pub submit-executions :
      (t : TradeTicket) → (submit service t event_id db).1.executions ≡ db.executions
  unfolding submit record_event
  submit-executions t = ground (arith, create_proposal-executions service.fingerprint t db)

  pub approve-executions :
      (id who hash : String) (now : Datetime)
      → (approve service id who hash now event_id db).1.executions ≡ db.executions
  unfolding approve record_event
  approve-executions id who hash now = grind (arith, decide_proposal-executions)

  pub reject-executions :
      (id who hash reason : String) (now : Datetime)
      → (reject service id who hash reason now event_id db).1.executions ≡ db.executions
  unfolding reject record_event
  reject-executions id who hash reason now = grind (arith, decide_proposal-executions)
