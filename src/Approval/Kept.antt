-- ===== src/Approval/Kept.antt =====
-- The approval service and the proposals that are stored.
use japan_agent.Base.{Bool, true, false, String}
use japan_agent.Base.Exec.{Exec, raise_if}
use japan_agent.Base.Exec.Frame.{Along, frame_rules}
use japan_agent.Time.{Instant, Datetime}
use japan_agent.Models.Ticket.{TradeTicket}
use japan_agent.Storage.Rows.{Database, DbError, Payload}
use japan_agent.Storage.Proposals.Kept.{
  keeping, Kept-refl, create_proposal-Kept, decide_proposal-Kept,
}
use japan_agent.Approval.{
  ApprovalService, ApprovalError, stored, record_event, submit, approve, reject,
}

stored-Kept :
    {A : Type 0} (m : Exec Database DbError A) → Along keeping m → Along keeping (stored m)
stored-Kept m k = record { at = k.at }

raise_if-Kept : (b : Bool) (e : ApprovalError) → Along keeping (raise_if {S = Database} b e)
raise_if-Kept true e = record { at = λ db. Kept-refl db.proposals }
raise_if-Kept false e = record { at = λ db. Kept-refl db.proposals }

module _ (service : ApprovalService) (event_id : String) where
  event-Kept :
      (kind id : String) (payload : Payload) (now : Instant)
      → Along keeping (record_event service event_id kind id payload now)
  unfolding record_event
  event-Kept kind id payload now = record { at = λ db. Kept-refl db.proposals }

  pub submit-Kept : (t : TradeTicket) → Along keeping (submit service t event_id)
  unfolding submit
  submit-Kept t = search (frame_rules, stored-Kept, create_proposal-Kept, event-Kept)

  pub approve-Kept :
      (id who hash : String) (now : Datetime)
      → Along keeping (approve service id who hash now event_id)
  unfolding approve
  approve-Kept id who hash now =
      search (frame_rules, stored-Kept, decide_proposal-Kept, event-Kept) depth 9

  pub reject-Kept :
      (id who hash reason : String) (now : Datetime)
      → Along keeping (reject service id who hash reason now event_id)
  unfolding reject
  reject-Kept id who hash reason now =
      search (frame_rules, stored-Kept, raise_if-Kept, decide_proposal-Kept, event-Kept) depth 12
