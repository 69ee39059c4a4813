-- ===== src/Storage/Proposals/Decide.antt =====
-- What decide_proposal does to the proposals.
use japan_agent.Base.{
  ◌≤◌, ◌<◌, ◌≡◌, ◌≢◌, refl, Bool, true, false, Option, Option-cases, Bool-cases, none, some, inl,
  inr, String, str_eq, str_eq_iff, str_eq_refl, Result, ok, err, leb, leb→le, leb→lt, arith,
}
use japan_agent.Base.Table.{lookup, update, lookup-update}
use japan_agent.Time.{Instant}
use japan_agent.Models.Enums.{ProposalStatus, pending, expired, is_pending}
use japan_agent.Storage.Rows.{
  ProposalRow, Database, DbError, proposal_not_found, already_decided, hash_mismatch,
  proposal_expired,
}
use japan_agent.Storage.Proposals.{
  with_proposals, set_status, decided, reread, decide_row, decide_proposal, get_proposal,
}

is_pending-eq : (s : ProposalStatus) → is_pending s ≡ true → s ≡ pending
is_pending-eq pending h = refl
is_pending-eq _ h = absurd (ground arith)

not_waiting : {s : ProposalStatus} → s ≡ pending → is_pending s ≢ false
not_waiting e h = ground (arith, e, h)

not_same : {a b : String} → a ≡ b → str_eq a b ≢ false
not_same {a} {b} e h = ground (arith, str_eq_iff a b, h)

-- A proposal that can be decided: it is pending, the hash is that of the row, and it has time.
pub record IsOpenFor (hash : String) (now : Instant) (row : ProposalRow) : Type 0 where
  pub is_waiting : row.status ≡ pending
  pub same_hash : row.ticket_hash ≡ hash
  pub in_time : now < row.expires_at

-- The row of one proposal is replaced, and nothing else changes.
pub record Writes (id : String) (row : ProposalRow) (db db' : Database) : Type 0 where
  pub written : lookup id db'.proposals ≡ some row
  pub others : (j : String) → j ≢ id → lookup j db'.proposals ≡ lookup j db.proposals
  pub same_executions : db'.executions ≡ db.executions
  pub same_events : db'.events ≡ db.events

-- The ways in which a decision ends, over the row found.
pub data Decision (id : String) (approve : Bool) (approver : String) (now : Instant) (hash : String)
    (reason : Option String) (db : Database) : Result DbError ProposalRow → Database → Type 0 where
  not_found :
      lookup id db.proposals ≡ none
      → Decision id approve approver now hash reason db (err proposal_not_found) db
  is_late :
      (row : ProposalRow)
      → lookup id db.proposals ≡ some row
      → row.status ≡ pending
      → row.ticket_hash ≡ hash
      → row.expires_at ≤ now
      → (db' : Database) → Writes id (set_status expired row) db db'
      → Decision id approve approver now hash reason db (err proposal_expired) db'
  is_decided :
      (row : ProposalRow)
      → lookup id db.proposals ≡ some row
      → row.status ≢ pending
      → Decision id approve approver now hash reason db (err already_decided) db
  is_changed :
      (row : ProposalRow)
      → lookup id db.proposals ≡ some row
      → row.status ≡ pending
      → row.ticket_hash ≢ hash
      → Decision id approve approver now hash reason db (err hash_mismatch) db
  takes :
      (row : ProposalRow)
      → lookup id db.proposals ≡ some row
      → IsOpenFor hash now row
      → (db' : Database) → Writes id (decided approve approver now reason row) db db'
      → Decision id approve approver now hash reason db
          (ok (decided approve approver now reason row))
          db'

updated :
    (id : String) (f : ProposalRow → ProposalRow) (row : ProposalRow) (db : Database)
    → lookup id db.proposals ≡ some row
    → Writes id (f row) db (with_proposals db (update id f db.proposals))
updated id f row db h = record {
  written = rw (lookup-update id id f db.proposals, str_eq_refl id, h) refl;
  others = λ j e. ground (arith, lookup-update j id f db.proposals, str_eq_iff id j, e);
  same_executions = refl;
  same_events = refl;
}

reread_found :
    (id : String) (row : ProposalRow) (db : Database)
    → lookup id db.proposals ≡ some row
    → reread id db ≡ (ok row, db)
unfolding reread get_proposal
reread_found id row db h = rw (h, reread) refl

module _ (id : String) (approve : Bool) (approver : String) (now : Instant) (hash : String)
    (reason : Option String) (db : Database) where
  abbrev Ends : Result DbError ProposalRow × Database → Type 0
  Ends (r, db') = Decision id approve approver now hash reason db r db'

  decide_row-Ends :
      (row : ProposalRow)
      → lookup id db.proposals ≡ some row
      → Ends (decide_row id approve approver now hash reason row db)
  unfolding decide_row
  decide_row-Ends row found = elim (Bool-cases (is_pending row.status)) [
    | inr other ↦ rw other (is_decided row found (λ e. not_waiting e other))
    | inl waiting ↦ rw waiting (elim (Bool-cases (str_eq row.ticket_hash hash)) [
      | inr other ↦
          rw other (is_changed row found (is_pending-eq _ waiting) (λ e. not_same e other))
      | inl same ↦ rw same (elim (Bool-cases (leb row.expires_at now)) [
        | inl late ↦ rw late (
            is_late row found (is_pending-eq _ waiting) ((str_eq_iff _ _).0 same) (leb→le _ _ late)
              _ (updated id (set_status expired) row db found))
        | inr early ↦ rw early (
            rw
              (reread_found id (decided approve approver now reason row)
                (with_proposals db (update id (decided approve approver now reason) db.proposals))
                (updated id (decided approve approver now reason) row db found).written)
              (takes row found
                (record {
                  is_waiting = is_pending-eq _ waiting;
                  same_hash = (str_eq_iff _ _).0 same;
                  in_time = leb→lt _ _ early;
                })
                _ (updated id (decided approve approver now reason) row db found)))
      ])
    ])
  ]

  -- A decision ends in one of five ways: no proposal; one that is not pending; one with
  -- another hash; one whose time is over, whose row is EXPIRED after the error; and otherwise
  -- success, with the decision on the row that is stored and returned. No other
  -- proposal, no execution and no event changes.
  pub decide_proposal-Decision : Ends (decide_proposal id approve approver now hash reason db)
  unfolding decide_proposal
  decide_proposal-Decision = elim (Option-cases (lookup id db.proposals)) [
    | inl absent ↦ rw (absent, decide_proposal) (not_found absent)
    | inr (row, found) ↦ rw (found, decide_proposal) (decide_row-Ends row found)
  ]
