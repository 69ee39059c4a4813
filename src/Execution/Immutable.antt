-- ===== src/Execution/Immutable.antt =====
-- Calls of the services, and what was proposed.
use japan_agent.Base.{
  subst, ◌≡◌, refl, Bool-cases, Option, none, some, inl, inr, String, List, Result, Result-cases,
  ok, err, leb, arith,
}
use japan_agent.Base.Exec.{◌>>◌}
use japan_agent.Base.Exec.Frame.{Relation, Along, frame_rules}
use japan_agent.Base.Table.{lookup}
use japan_agent.Time.{Instant, Datetime}
use japan_agent.Models.Enums.{ProposalStatus, approved}
use japan_agent.Models.Ticket.{TradeTicket}
use japan_agent.Storage.Rows.{
  ProposalRow, ExecutionState, BrokerOrder, OrderRequest, ErrorText, Payload, DbError,
}
use japan_agent.Storage.Proposals.{set_status}
use japan_agent.Storage.Proposals.Kept.{
  SameTicket, Kept, Kept-refl, Kept-trans, Kept-update, mark_expired-Kept,
}
use japan_agent.Storage.Executions.{
  claim_execution, get_execution, update_execution, ExecutionClaim,
}
use japan_agent.Approval.{ApprovalService}
use japan_agent.Approval.Kept.{submit-Kept, approve-Kept, reject-Kept}
use japan_agent.Execution.Errors.{ExecutionError, database_failed}
use japan_agent.Execution.Broker.{
  BrokerReply, rejected, uncertain, unusable, escaped, order, failure,
}
use japan_agent.Execution.Preflight.{ExecuteCall, check_approval, preflight, request_of}
use japan_agent.Execution.Submit.{
  World, Run, Service, of_result, claim, append, update, mark_unknown, settle_reply, send_order,
  after_claim, submit, execute_approved, execute_by_status, execute_found, execute,
}
use japan_agent.Execution.Reconcile.{reconcile}
use japan_agent.Execution.Single.{
  Step, executes, reconciles, submits, approves, rejects, Reach, here, next,
}

abbrev keeping_world : Relation World
keeping_world = record {
  rel = λ a b. Kept a.db.proposals b.db.proposals;
  rel_refl = λ a. Kept-refl a.db.proposals;
  rel_trans = λ p q. Kept-trans p q;
}

abbrev Keeps : {A : Type 0} → Run A → Type 0
Keeps m = Along keeping_world m

claim-same :
    (id : String) (request : OrderRequest) (now : Instant) (w : World)
    → (claim id request now w).1.db.proposals ≡ w.db.proposals
unfolding claim claim_execution
claim-same id request now w = ground arith

update-Keeps :
    (id : String) (state : ExecutionState) (now : Instant) (response : Option BrokerOrder)
    (order_id : Option String) (error : Option ErrorText) (status : ProposalStatus)
    → Keeps (update id state now response order_id error status)
unfolding update update_execution
update-Keeps id state now response order_id error status = record {
  at = λ w.
      Kept-update id (set_status status) w.db.proposals
        (λ row. record { ticket = refl; hash = refl; expiry = refl });
}

read-Keeps :
    (id : String) → Keeps (λ w. (of_result DbError database_failed (get_execution w.db id), w))
read-Keeps id = record { at = λ w. Kept-refl w.db.proposals }

module _ (service : Service) (event_id : String) where
  append-Keeps :
      (kind id : String) (payload : Payload) (now : Instant)
      → Keeps (append service event_id kind id payload now)
  unfolding append
  append-Keeps kind id payload now = record { at = λ w. Kept-refl w.db.proposals }

  unknown-Keeps :
      (id hash : String) (now : Instant) (error : ErrorText) (response : Option BrokerOrder)
      (order_id : Option String)
      → Keeps (mark_unknown service event_id id hash now error response order_id)
  unfolding mark_unknown
  unknown-Keeps id hash now error response order_id =
      search (frame_rules, update-Keeps, append-Keeps)

  settle-Keeps :
      (id : String) (row : ProposalRow) (now : Instant) (reply : BrokerReply)
      → Keeps (settle_reply service id row event_id now reply)
  unfolding settle_reply
  settle-Keeps id row now (failure (rejected status)) =
      search (frame_rules, update-Keeps, append-Keeps)
  settle-Keeps id row now (failure uncertain) = search (frame_rules, unknown-Keeps)
  settle-Keeps id row now (failure unusable) = search frame_rules
  settle-Keeps id row now (failure escaped) = search frame_rules
  settle-Keeps id row now (order o) =
      search (frame_rules, update-Keeps, append-Keeps, unknown-Keeps)

  send-Keeps : (id : String) (t : TradeTicket) → Keeps (send_order id t)
  unfolding send_order
  send-Keeps id t = record { at = λ w. Kept-refl w.db.proposals }

  order-Keeps :
      (id : String) (row : ProposalRow) (now : Instant) (reply : BrokerReply)
      → Keeps (send_order id row.ticket >> settle_reply service id row event_id now reply)
  order-Keeps id row now reply = search (frame_rules, send-Keeps, settle-Keeps)

  after-Keeps :
      (id : String) (row : ProposalRow) (now : Instant) (reply : BrokerReply)
      (r : Result ExecutionError ExecutionClaim)
      → Keeps (after_claim service id row event_id now reply r)
  unfolding after_claim
  after-Keeps id row now reply (err e) = record { at = λ w. Kept-refl w.db.proposals }
  after-Keeps id row now reply (ok c) = record {
    at = λ w. elim (Bool-cases c.is_new) [
      | inl new ↦ rw new ((order-Keeps id row now reply).at w)
      | inr old ↦ rw old (Kept-refl w.db.proposals)
    ];
  }

  submit-Keeps :
      (id : String) (row : ProposalRow) (now : Instant) (reply : BrokerReply)
      → Keeps (submit service id row event_id now reply)
  unfolding submit
  submit-Keeps id row now reply = record {
    at = λ w.
        let (r, w') = claim id (request_of row) now w in
        subst
          (λ rows. Kept rows (after_claim service id row event_id now reply r w').1.db.proposals)
          (claim-same id (request_of row) now w) ((after-Keeps id row now reply r).at w');
  }

  approved-Keeps :
      (call : ExecuteCall) (row : ProposalRow) (now : Instant) (reply : BrokerReply)
      → Keeps (execute_approved service call row event_id now reply)
  unfolding execute_approved
  approved-Keeps call row now reply = record {
    at = λ w. elim (Result-cases (check_approval service.fingerprint row)) [
      | inr (e, bad) ↦ rw (bad, execute_approved) (Kept-refl w.db.proposals)
      | inl (_, good) ↦ elim (Bool-cases (leb row.ticket.expires_at now)) [
        | inl late ↦ rw (good, execute_approved) (rw late (mark_expired-Kept call.proposal_id w.db))
        | inr early ↦
            elim (Result-cases
              (preflight service.policy service.settings w.db row.ticket call now)) [
                | inr (e, bad) ↦
                    rw (good, execute_approved) (rw early (rw bad (Kept-refl w.db.proposals)))
                | inl (_, checks) ↦
                    rw (good, execute_approved)
                      (rw early (rw checks ((submit-Keeps call.proposal_id row now reply).at w)))
              ]
      ]
    ];
  }

  status-Keeps :
      (status : ProposalStatus) (call : ExecuteCall) (row : ProposalRow) (now : Instant)
      (reply : BrokerReply)
      → Keeps (execute_by_status status service call row event_id now reply)
  unfolding execute_by_status
  status-Keeps approved call row now reply = record {
    at = λ w. (approved-Keeps call row now reply).at w;
  }
  status-Keeps other call row now reply = record { at = λ w. Kept-refl w.db.proposals }

  found-Keeps :
      (found : Option ProposalRow) (call : ExecuteCall) (now : Instant) (reply : BrokerReply)
      → Keeps (execute_found found service call event_id now reply)
  unfolding execute_found
  found-Keeps none call now reply = record { at = λ w. Kept-refl w.db.proposals }
  found-Keeps (some row) call now reply = record {
    at = λ w. (status-Keeps row.status call row now reply).at w;
  }

  execute-Keeps :
      (call : ExecuteCall) (reply : BrokerReply) → Keeps (execute service call event_id reply)
  unfolding execute
  execute-Keeps call reply = search (frame_rules, found-Keeps) depth 9

  reconcile-Keeps :
      (id : String) (now : Datetime) (reply : BrokerReply) (history : Option (List BrokerOrder))
      → Keeps (reconcile service id now event_id reply history)
  unfolding reconcile
  reconcile-Keeps id now reply history =
      search (frame_rules, read-Keeps, update-Keeps, append-Keeps) depth 9

module _ (service : Service) (approvals : ApprovalService) where
  Step-Kept : {u v : World} → Step service approvals u v → Kept u.db.proposals v.db.proposals
  Step-Kept (executes w call event_id reply) = (execute-Keeps service event_id call reply).at w
  Step-Kept (reconciles w id now event_id reply history) =
      (reconcile-Keeps service event_id id now reply history).at w
  Step-Kept (submits w t event_id) = (submit-Kept approvals event_id t).at w.db
  Step-Kept (approves w id who hash now event_id) =
      (approve-Kept approvals event_id id who hash now).at w.db
  Step-Kept (rejects w id who hash reason now event_id) =
      (reject-Kept approvals event_id id who hash reason now).at w.db

  Reach-Kept : {u v : World} → Reach service approvals u v → Kept u.db.proposals v.db.proposals
  Reach-Kept {u = u} here = Kept-refl u.db.proposals
  Reach-Kept (next r s) = Kept-trans (Reach-Kept r) (Step-Kept s)

  -- Whatever calls are made of the approval and the execution services, a proposal that was stored
  -- stays, with its ticket, its hash and its expiry.
  pub proposal_immutable :
      {u v : World} (id : String) (row : ProposalRow)
      → Reach service approvals u v
      → lookup id u.db.proposals ≡ some row
      → (row' : ProposalRow) × (lookup id v.db.proposals ≡ some row') × SameTicket row row'
  proposal_immutable id row run h = (Reach-Kept run).found id row h
