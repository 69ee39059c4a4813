-- ===== src/Execution/Calm.antt =====
-- Runs that send no order and remove no execution.
use japan_agent.Base.{◌≡◌, refl, ◌∙◌, Option, none, some, String, arith}
use japan_agent.Base.Exec.Frame.{Relation, Along, frame_rules}
use japan_agent.Base.Table.{lookup, lookup-update}
use mathlib.Core.Option
use japan_agent.Time.{Instant}
use japan_agent.Models.Enums.{ProposalStatus}
use japan_agent.Storage.Rows.{ExecutionState, BrokerOrder, ErrorText, Payload, ProposalRow}
use japan_agent.Storage.Executions.{update_execution, updated_row}
use japan_agent.Execution.Broker.{
  BrokerReply, rejected, uncertain, unusable, escaped, order, failure,
}
use japan_agent.Execution.Submit.{World, Run, Service, update, append, mark_unknown, settle_reply}

-- The second world has the same orders, and an execution wherever the first has one.
pub record Quiet (w w' : World) : Type 0 where
  pub same_sent : w'.sent ≡ w.sent
  pub grows : (id : String) → lookup id w'.db.executions ≡ none → lookup id w.db.executions ≡ none

pub Quiet-refl : (w : World) → Quiet w w
Quiet-refl w = record { same_sent = refl; grows = λ id h. h }

pub Quiet-trans : {u v w : World} → Quiet u v → Quiet v w → Quiet u w
Quiet-trans p q = record {
  same_sent = q.same_sent ∙ p.same_sent;
  grows = λ id h. p.grows id (q.grows id h);
}

abbrev pub quiet : Relation World
quiet = record { rel = Quiet; rel_refl = Quiet-refl; rel_trans = Quiet-trans }

abbrev pub Calm : {A : Type 0} → Run A → Type 0
Calm m = Along quiet m

map-none : {A B : Type 0} (f : A → B) (o : Option A) → Option.map f o ≡ none → o ≡ none
map-none f none h = refl
map-none f (some a) h = cc

pub Calm-update :
    (id : String) (state : ExecutionState) (now : Instant) (response : Option BrokerOrder)
    (broker_order_id : Option String) (error : Option ErrorText) (status : ProposalStatus)
    → Calm (update id state now response broker_order_id error status)
unfolding update update_execution
Calm-update id state now response broker_order_id error status = record {
  at = λ w. record {
    same_sent = refl;
    grows = λ j h. ground (
      arith,
      lookup-update j id (updated_row state now response broker_order_id error) w.db.executions,
      h,
    );
  };
}

append-Quiet :
    (service : Service) (event_id kind id : String) (payload : Payload) (now : Instant) (w : World)
    → Quiet w (append service event_id kind id payload now w).1
unfolding append
append-Quiet service event_id kind id payload now w = record { same_sent = refl; grows = λ j h. h }

pub Calm-append :
    (service : Service) (event_id kind id : String) (payload : Payload) (now : Instant)
    → Calm (append service event_id kind id payload now)
Calm-append service event_id kind id payload now = record {
  at = append-Quiet service event_id kind id payload now;
}

Calm-mark_unknown :
    (service : Service) (event_id id ticket_hash : String) (now : Instant) (error : ErrorText)
    (response : Option BrokerOrder) (order_id : Option String)
    → Calm (mark_unknown service event_id id ticket_hash now error response order_id)
unfolding mark_unknown
Calm-mark_unknown service event_id id ticket_hash now error response order_id =
    search (frame_rules, Calm-update, Calm-append)

pub Calm-settle_reply :
    (service : Service) (id : String) (row : ProposalRow) (event_id : String) (now : Instant)
    (reply : BrokerReply)
    → Calm (settle_reply service id row event_id now reply)
unfolding settle_reply
Calm-settle_reply service id row event_id now (failure (rejected status)) =
    search (frame_rules, Calm-update, Calm-append)
Calm-settle_reply service id row event_id now (failure uncertain) =
    search (frame_rules, Calm-mark_unknown)
Calm-settle_reply service id row event_id now (failure unusable) = search frame_rules
Calm-settle_reply service id row event_id now (failure escaped) = search frame_rules
Calm-settle_reply service id row event_id now (order o) =
    search (frame_rules, Calm-update, Calm-append, Calm-mark_unknown)
