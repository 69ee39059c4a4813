-- ===== src/Execution/Single.antt =====
-- Runs of the program, and the orders that they send for a proposal.
use japan_agent.Base.{
  ℕ, ◌+◌, ◌≤◌, ◌≡◌, refl, sym, subst, inl, inr, Option, none, List, [], ◌∷◌, ◌++◌, String, str_eq,
  str_eq_iff, Bool-cases, count, count-append, arith, if◌then◌else◌,
}
use japan_agent.Base.Exec.Frame.{frame_rules}
use japan_agent.Base.Table.{lookup}
use japan_agent.Time.{Datetime}
use japan_agent.Models.Ticket.{TradeTicket}
use japan_agent.Storage.Rows.{Database, BrokerOrder, ProposalRow, DbError}
use japan_agent.Storage.Executions.{get_execution}
use japan_agent.Approval
use japan_agent.Approval.{ApprovalService}
use japan_agent.Approval.Frame.{submit-executions, approve-executions, reject-executions}
use japan_agent.Execution.Errors.{database_failed}
use japan_agent.Execution.Broker.{BrokerReply}
use japan_agent.Execution.Preflight.{ExecuteCall}
use japan_agent.Execution.Submit.{World, SentOrder, Service, execute, of_result}
use japan_agent.Execution.Reconcile.{reconcile}
use japan_agent.Execution.Calm.{Quiet, Quiet-refl, Calm, Calm-update, Calm-append}
use japan_agent.Execution.Authority.{Sends, order_for, execute_outcome}

-- The orders that were sent for a proposal.
abbrev pub orders_for : String → World → ℕ
orders_for id w = count (λ o. str_eq o.proposal_id id) w.sent

-- One call of a service that works on the database.
pub data Step (service : Service) (approvals : ApprovalService) : World → World → Type 0 where
  executes :
      (w : World) (call : ExecuteCall) (event_id : String) (reply : BrokerReply)
      → Step service approvals w (execute service call event_id reply w).1
  reconciles :
      (w : World) (id : String) (now : Datetime) (event_id : String) (reply : BrokerReply)
      (history : Option (List BrokerOrder))
      → Step service approvals w (reconcile service id now event_id reply history w).1
  submits :
      (w : World) (t : TradeTicket) (event_id : String)
      → Step service approvals w (record w { db = (Approval.submit approvals t event_id w.db).1 })
  approves :
      (w : World) (id who hash : String) (now : Datetime) (event_id : String)
      → Step service approvals w
          (record w { db = (Approval.approve approvals id who hash now event_id w.db).1 })
  rejects :
      (w : World) (id who hash reason : String) (now : Datetime) (event_id : String)
      → Step service approvals w
          (record w { db = (Approval.reject approvals id who hash reason now event_id w.db).1 })

pub data Reach (service : Service) (approvals : ApprovalService) (w : World) : World → Type 0 where
  here : Reach service approvals w w
  next :
      {u v : World}
      → Reach service approvals w u
      → Step service approvals u v
      → Reach service approvals w v

-- A proposal has at most one order, and one without an execution has none.
pub record IsSingle (w : World) : Type 0 where
  pub at_most_one : (id : String) → orders_for id w ≤ 1
  pub none_unclaimed : (id : String) → lookup id w.db.executions ≡ none → orders_for id w ≡ 0

Quiet-IsSingle : {w w' : World} → Quiet w w' → IsSingle w → IsSingle w'
Quiet-IsSingle q h = record {
  at_most_one = λ id. rw q.same_sent (h.at_most_one id);
  none_unclaimed = λ id e. rw q.same_sent (h.none_unclaimed id (q.grows id e));
}

one_more :
    (id j : String) (row : ProposalRow) (sent : List SentOrder)
    → count (λ o. str_eq o.proposal_id j) (sent ++ order_for id row ∷ []) ≡ (
        if str_eq id j
        then count (λ o. str_eq o.proposal_id j) sent + 1
        else count (λ o. str_eq o.proposal_id j) sent)
one_more id j row sent =
    ground
      (arith, count-append (λ (o : SentOrder). str_eq o.proposal_id j) sent (order_for id row ∷ []))

Sends-IsSingle :
    (id : String) (row : ProposalRow) (w w' : World) → Sends id row w w' → IsSingle w → IsSingle w'
Sends-IsSingle id row w w' s h = record {
  at_most_one = λ j.
      rw (s.one_order, one_more id j row w.sent)
        (elim (Bool-cases (str_eq id j)) [
          | inl same ↦ rw same (
              omega (
                arith,
                h.none_unclaimed j (
                    subst (λ k. lookup k w.db.executions ≡ none) ((str_eq_iff id j).0 same)
                      s.unclaimed),
              ))
          | inr other ↦ rw other (h.at_most_one j)
        ]);
  none_unclaimed = λ j e.
      rw (s.one_order, one_more id j row w.sent)
        (elim (Bool-cases (str_eq id j)) [
          | inl same ↦ absurd (
              s.claimed
                (subst (λ k. lookup k w'.db.executions ≡ none) (sym ((str_eq_iff id j).0 same)) e))
          | inr other ↦ rw other (h.none_unclaimed j (s.grows j e))
        ]);
}

same_executions :
    (w : World) (db : Database) → db.executions ≡ w.db.executions → Quiet w (record w { db = db })
same_executions w db e = record { same_sent = refl; grows = λ id h. rw (← e) h }

Calm-read :
    (id : String) → Calm (λ w. (of_result DbError database_failed (get_execution w.db id), w))
Calm-read id = record { at = Quiet-refl }

Calm-reconcile :
    (service : Service) (id : String) (now : Datetime) (event_id : String) (reply : BrokerReply)
    (history : Option (List BrokerOrder))
    → Calm (reconcile service id now event_id reply history)
unfolding reconcile
Calm-reconcile service id now event_id reply history =
    search (frame_rules, Calm-update, Calm-append, Calm-read) depth 9

module _ (service : Service) (approvals : ApprovalService) where
  Step-IsSingle : {u v : World} → Step service approvals u v → IsSingle u → IsSingle v
  Step-IsSingle (executes w call event_id reply) h =
      elim (execute_outcome service call event_id reply w) [
        | inl quiet ↦ Quiet-IsSingle quiet h
        | inr (row, _, sends) ↦ Sends-IsSingle call.proposal_id row w _ sends h
      ]
  Step-IsSingle (reconciles w id now event_id reply history) h =
      Quiet-IsSingle ((Calm-reconcile service id now event_id reply history).at w) h
  Step-IsSingle (submits w t event_id) h =
      Quiet-IsSingle (same_executions w _ (submit-executions approvals w.db event_id t)) h
  Step-IsSingle (approves w id who hash now event_id) h =
      Quiet-IsSingle
        (same_executions w _ (approve-executions approvals w.db event_id id who hash now)) h
  Step-IsSingle (rejects w id who hash reason now event_id) h =
      Quiet-IsSingle
        (same_executions w _ (reject-executions approvals w.db event_id id who hash reason now)) h

  Reach-IsSingle : {u v : World} → Reach service approvals u v → IsSingle u → IsSingle v
  Reach-IsSingle here h = h
  Reach-IsSingle (next r s) h = Step-IsSingle s (Reach-IsSingle r h)

  -- From a world in which no order was sent, whatever calls are made of the approval and the
  -- execution services, in any order, with any answers of the broker, and whether they succeed or
  -- raise, at most one order is sent for each proposal.
  pub at_most_one_order :
      {u v : World} (id : String) → u.sent ≡ [] → Reach service approvals u v → orders_for id v ≤ 1
  at_most_one_order id start run =
      (Reach-IsSingle run (record {
        at_most_one = λ j. rw start (omega arith);
        none_unclaimed = λ j e. rw start;
      })).at_most_one
        id
