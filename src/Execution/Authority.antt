-- ===== src/Execution/Authority.antt =====
-- When ExecutionService.execute sends an order.
use japan_agent.Base.{
  ◌≡◌, ◌≢◌, refl, ◌<◌, true, false, ◌⊎◌, inl, inr, none, some, [], ◌∷◌, ◌++◌, String, ok, err,
  arith, str_eq_refl, Bool-cases, Option-cases, Result-cases, leb, leb→lt,
}
use japan_agent.Base.Table.{lookup, insert, lookup-insert}
use japan_agent.Time.{Instant}
use japan_agent.Models.Enums.{ProposalStatus, approved}
use japan_agent.Storage.Rows.{ProposalRow, ExecutionRow, OrderRequest, integrity_error}
use japan_agent.Storage.Proposals.{get_proposal, mark_expired}
use japan_agent.Storage.Executions.{claim_execution, claim_row}
use japan_agent.Execution.Errors.{database_failed}
use japan_agent.Execution.Broker.{BrokerReply}
use japan_agent.Execution.Gate.{assert_environment_allowed}
use japan_agent.Execution.Preflight.{ExecuteCall, utc, check_approval, preflight, request_of}
use japan_agent.Execution.Submit.{
  World, SentOrder, Service, claim, send_order, settle_reply, after_claim, submit, execute_approved,
  execute_by_status, execute_found, execute,
}
use japan_agent.Execution.Calm.{Quiet, Quiet-refl, Calm-settle_reply}

abbrev pub order_for : String → ProposalRow → SentOrder
order_for id row = record {
  proposal_id = id;
  ticker = row.ticket.ticker;
  quantity = row.ticket.quantity;
}

-- One order is sent for a proposal that had no execution, and now it has one.
pub record Sends (id : String) (row : ProposalRow) (w w' : World) : Type 0 where
  pub unclaimed : lookup id w.db.executions ≡ none
  pub claimed : lookup id w'.db.executions ≢ none
  pub grows : (j : String) → lookup j w'.db.executions ≡ none → lookup j w.db.executions ≡ none
  pub one_order : w'.sent ≡ w.sent ++ order_for id row ∷ []

module _ (id : String) (request : OrderRequest) (now : Instant) (w : World) where
  abbrev claimed_world : World
  claimed_world = record w {
    db = record w.db { executions = insert id (claim_row request now) w.db.executions };
  }

  claim_old :
      (old : ExecutionRow)
      → lookup id w.db.executions ≡ some old
      → claim id request now w ≡ (ok (record { row = old; is_new = false }), w)
  unfolding claim
  claim_old old e = rw (e, claim_execution)

  claim_new :
      (p : ProposalRow)
      → lookup id w.db.executions ≡ none
      → lookup id w.db.proposals ≡ some p
      → claim id request now w
        ≡ (ok (record { row = claim_row request now; is_new = true }), claimed_world)
  unfolding claim
  claim_new p e stored = rw (e, claim_execution) (rw stored)

  claim_missing :
      lookup id w.db.executions ≡ none
      → lookup id w.db.proposals ≡ none
      → claim id request now w ≡ (err (database_failed integrity_error), w)
  unfolding claim
  claim_missing e missing = rw (e, claim_execution) (rw missing)

module _ (service : Service) (id : String) (row : ProposalRow) (event_id : String) (now : Instant)
    (reply : BrokerReply) (w : World) where
  abbrev sent_world : World
  sent_world = record (claimed_world id (request_of row) now w) {
    sent = w.sent ++ order_for id row ∷ [];
  }

  claimed_grows :
      (j : String)
      → lookup j sent_world.db.executions ≡ none
      → lookup id w.db.executions ≡ none
      → lookup j w.db.executions ≡ none
  claimed_grows j h e =
      ground (arith, lookup-insert j id (claim_row (request_of row) now) w.db.executions e, h)

  claimed_here : lookup id w.db.executions ≡ none → lookup id sent_world.db.executions ≢ none
  claimed_here e h = ground (
    arith,
    lookup-insert id id (claim_row (request_of row) now) w.db.executions e,
    str_eq_refl id,
    h,
  )

  sending :
      lookup id w.db.executions ≡ none
      → Sends id row w (settle_reply service id row event_id now reply sent_world).1
  sending e =
      let quiet = (Calm-settle_reply service id row event_id now reply).at sent_world in
      record {
        unclaimed = e;
        claimed = λ h. claimed_here e (quiet.grows id h);
        grows = λ j h. claimed_grows j (quiet.grows j h) e;
        one_order = quiet.same_sent;
      }

  -- The claim is the only step between a proposal and an order for it.
  submit_outcome :
      Quiet w (submit service id row event_id now reply w).1
      ⊎ Sends id row w (submit service id row event_id now reply w).1
  unfolding submit after_claim send_order
  submit_outcome = elim (Option-cases (lookup id w.db.executions)) [
    | inr (old, e) ↦ inl (rw (claim_old id (request_of row) now w old e) (Quiet-refl w))
    | inl e ↦ elim (Option-cases (lookup id w.db.proposals)) [
      | inl missing ↦ inl (rw (claim_missing id (request_of row) now w e missing) (Quiet-refl w))
      | inr (p, stored) ↦ inr (rw (claim_new id (request_of row) now w p e stored) (sending e))
    ]
  ]

-- The conditions under which `execute` sends the order of a proposal.
pub record Authorised (service : Service) (call : ExecuteCall) (row : ProposalRow) (w : World)
    : Type 0 where
  pub now : Instant
  pub now_utc : utc call.now ≡ ok now
  pub environment : assert_environment_allowed service.settings now ≡ ok tt
  pub stored : get_proposal w.db call.proposal_id ≡ some row
  pub is_approved : row.status ≡ approved
  pub approval : check_approval service.fingerprint row ≡ ok tt
  pub unexpired : now < row.ticket.expires_at
  pub checks : preflight service.policy service.settings w.db row.ticket call now ≡ ok tt

mark_expired-Quiet : (id : String) (w : World) → Quiet w (record w { db = mark_expired id w.db })
unfolding mark_expired
mark_expired-Quiet id w = record { same_sent = refl; grows = λ j h. h }

sum_map : {A B C D : Type 0} → (A → C) → (B → D) → A ⊎ B → C ⊎ D
sum_map f g (inl a) = inl (f a)
sum_map f g (inr b) = inr (g b)

module _ (service : Service) (call : ExecuteCall) (event_id : String) (reply : BrokerReply)
    (w : World) where
  granted :
      (row : ProposalRow) (now : Instant)
      → utc call.now ≡ ok now
      → assert_environment_allowed service.settings now ≡ ok tt
      → get_proposal w.db call.proposal_id ≡ some row
      → row.status ≡ approved
      → check_approval service.fingerprint row ≡ ok tt
      → now < row.ticket.expires_at
      → preflight service.policy service.settings w.db row.ticket call now ≡ ok tt
      → Authorised service call row w
  granted row now a b c d e f g = record {
    now = now;
    now_utc = a;
    environment = b;
    stored = c;
    is_approved = d;
    approval = e;
    unexpired = f;
    checks = g;
  }

  abbrev Outcome : ProposalRow → World → Type 0
  Outcome row w' = Quiet w w' ⊎ (Authorised service call row w × Sends call.proposal_id row w w')

  approved_outcome :
      (row : ProposalRow) (now : Instant)
      → utc call.now ≡ ok now
      → assert_environment_allowed service.settings now ≡ ok tt
      → get_proposal w.db call.proposal_id ≡ some row
      → row.status ≡ approved
      → Outcome row (execute_approved service call row event_id now reply w).1
  unfolding execute_approved
  approved_outcome row now now_utc environment stored is_approved =
      let authorised =
        λ (a : check_approval service.fingerprint row ≡ ok tt) (u : now < row.ticket.expires_at)
            (c : preflight service.policy service.settings w.db row.ticket call now ≡ ok tt).
          granted row now now_utc environment stored is_approved a u c in
      elim (Result-cases (check_approval service.fingerprint row)) [
        | inr (e, bad) ↦ inl (rw (bad, execute_approved) (Quiet-refl w))
        | inl (_, approval) ↦ elim (Bool-cases (leb row.ticket.expires_at now)) [
          | inl late ↦
              inl
                (rw (approval, execute_approved) (rw late (mark_expired-Quiet call.proposal_id w)))
          | inr early ↦
              elim (Result-cases
                (preflight service.policy service.settings w.db row.ticket call now)) [
                  | inr (e, bad) ↦
                      inl (rw (approval, execute_approved) (rw early (rw bad (Quiet-refl w))))
                  | inl (_, checks) ↦
                      rw (approval, execute_approved)
                        (rw early (
                          rw checks (
                            sum_map (λ q. q)
                              (λ s. (authorised approval (leb→lt _ _ early) checks, s))
                              (submit_outcome service call.proposal_id row event_id now reply w))))
                ]
        ]
      ]

  by_status_outcome :
      (status : ProposalStatus) (row : ProposalRow) (now : Instant)
      → utc call.now ≡ ok now
      → assert_environment_allowed service.settings now ≡ ok tt
      → get_proposal w.db call.proposal_id ≡ some row
      → row.status ≡ status
      → Outcome row (execute_by_status status service call row event_id now reply w).1
  unfolding execute_by_status
  by_status_outcome approved row now a b c d = approved_outcome row now a b c d
  by_status_outcome other row now a b c d = inl (Quiet-refl w)

  -- A run of `execute` sends no order and removes no execution, or it sends exactly one: the
  -- ticket and quantity of the stored proposal, whose status is APPROVED, whose hash is that of
  -- its ticket, which has not expired, which had no execution before and has one after, in an
  -- environment that is allowed, and after all checks of quote, portfolio and risk have passed.
  pub execute_outcome :
      Quiet w (execute service call event_id reply w).1
      ⊎ ((row : ProposalRow) × Authorised service call row w
          × Sends call.proposal_id row w (execute service call event_id reply w).1)
  unfolding execute execute_found
  execute_outcome = elim (Result-cases (utc call.now)) [
    | inr (e, bad) ↦ inl (rw (bad, execute) (Quiet-refl w))
    | inl (now, now_utc) ↦ elim (Result-cases (assert_environment_allowed service.settings now)) [
      | inr (e, bad) ↦ inl (rw (now_utc, execute) (rw bad (Quiet-refl w)))
      | inl (_, allowed) ↦ elim (Option-cases (get_proposal w.db call.proposal_id)) [
        | inl absent ↦ inl (rw (now_utc, execute) (rw allowed (rw absent (Quiet-refl w))))
        | inr (row, stored) ↦
            rw (now_utc, execute)
              (rw allowed (
                rw stored (
                  sum_map (λ q. q) (λ s. (row, s.0, s.1))
                    (by_status_outcome row.status row now now_utc allowed stored refl))))
      ]
    ]
  ]
