-- ===== src/Storage/Proposals/Kept.antt =====
-- Proposals are not removed, and what was proposed does not change.
use japan_agent.Base.{
  ◌≡◌, refl, ◌∙◌, subst, Bool, Bool-cases, false, Option, Option-cases, none, some, inl, inr,
  String, str_eq, str_eq_iff, is_some, leb, ◌||◌, arith,
}
use japan_agent.Base.Table.{Table, lookup, insert, update, lookup-insert, lookup-update}
use japan_agent.Base.Exec.Frame.{Relation, Along}
use japan_agent.Time.{Instant}
use japan_agent.Models.Enums.{expired, is_pending}
use japan_agent.Models.Ticket.{TradeTicket}
use japan_agent.Storage.Rows.{ProposalRow, Database}
use japan_agent.Storage.Proposals.{
  hash_taken, with_proposals, set_status, decided, expire, is_undelivered, create_proposal,
  decide_row, decide_proposal, mark_expired, reread,
}

-- The columns that the database does not allow to change.
pub record SameTicket (row row' : ProposalRow) : Type 0 where
  pub ticket : row'.ticket ≡ row.ticket
  pub hash : row'.ticket_hash ≡ row.ticket_hash
  pub expiry : row'.expires_at ≡ row.expires_at

pub SameTicket-refl : (row : ProposalRow) → SameTicket row row
SameTicket-refl row = record { ticket = refl; hash = refl; expiry = refl }

-- Every proposal of the first table is in the second, with its ticket, hash and expiry.
pub record Kept (rows rows' : Table ProposalRow) : Type 0 where
  pub found :
      (id : String) (row : ProposalRow)
      → lookup id rows ≡ some row
      → (row' : ProposalRow) × (lookup id rows' ≡ some row') × SameTicket row row'

pub Kept-refl : (rows : Table ProposalRow) → Kept rows rows
Kept-refl rows = record { found = λ id row h. (row, h, SameTicket-refl row) }

pub Kept-trans : {a b c : Table ProposalRow} → Kept a b → Kept b c → Kept a c
Kept-trans p q = record {
  found = λ id row h.
      let (row', h', s) = p.found id row h in
      let (row'', h'', t) = q.found id row' h' in
      (
        row'',
        h'',
        record {
          ticket = t.ticket ∙ s.ticket;
          hash = t.hash ∙ s.hash;
          expiry = t.expiry ∙ s.expiry;
        },
      );
}

pub Kept-update :
    (id : String) (f : ProposalRow → ProposalRow) (rows : Table ProposalRow)
    → ((row : ProposalRow) → SameTicket row (f row))
    → Kept rows (update id f rows)
Kept-update id f rows same = record {
  found = λ j row h. elim (Bool-cases (str_eq id j)) [
    | inl e ↦ (f row, lookup-update j id f rows ∙ (rw (e, h) refl), same row)
    | inr e ↦ (row, lookup-update j id f rows ∙ (rw (e, h) refl), SameTicket-refl row)
  ];
}

pub Kept-insert :
    (id : String) (new : ProposalRow) (rows : Table ProposalRow)
    → lookup id rows ≡ none
    → Kept rows (insert id new rows)
Kept-insert id new rows absent = record {
  found = λ j row h. elim (Bool-cases (str_eq id j)) [
    | inl e ↦
        absurd (ground (arith, subst (λ k. lookup k rows ≡ none) ((str_eq_iff id j).0 e) absent, h))
    | inr e ↦ (row, lookup-insert j id new rows absent ∙ (rw (e, h) refl), SameTicket-refl row)
  ];
}

expire-SameTicket : (row : ProposalRow) → SameTicket row (expire row)
expire-SameTicket row = elim (Bool-cases (is_undelivered row.status)) [
  | inl e ↦ rw e (record { ticket = refl; hash = refl; expiry = refl })
  | inr e ↦ rw e (SameTicket-refl row)
]

-- The relation of databases by their proposals.
abbrev pub keeping : Relation Database
keeping = record {
  rel = λ a b. Kept a.proposals b.proposals;
  rel_refl = λ a. Kept-refl a.proposals;
  rel_trans = λ p q. Kept-trans p q;
}

pub mark_expired-Kept :
    (id : String) (db : Database) → Kept db.proposals (mark_expired id db).proposals
unfolding mark_expired
mark_expired-Kept id db = Kept-update id expire db.proposals expire-SameTicket

pub create_proposal-Kept :
    (fingerprint : TradeTicket → String) (t : TradeTicket)
    → Along keeping (create_proposal fingerprint t)
unfolding create_proposal
create_proposal-Kept fingerprint t = record {
  at = λ db.
      elim (Bool-cases
        (is_some (lookup t.proposal_id db.proposals) || hash_taken (fingerprint t) db.proposals)) [
          | inl e ↦ rw e (Kept-refl db.proposals)
          | inr e ↦ rw e (
              Kept-insert t.proposal_id _ db.proposals
                (absent (lookup t.proposal_id db.proposals) _ e))
        ];
}
  where
    absent : (o : Option ProposalRow) (b : Bool) → is_some o || b ≡ false → o ≡ none
    absent o b h = ground arith

reread-same : (id : String) (db : Database) → (reread id db).1 ≡ db
unfolding reread
reread-same id db = ground arith

decided-SameTicket :
    (approve : Bool) (who : String) (now : Instant) (reason : Option String) (row : ProposalRow)
    → SameTicket row (decided approve who now reason row)
decided-SameTicket approve who now reason row = record { ticket = refl; hash = refl; expiry = refl }

decide_row-Kept :
    (id : String) (approve : Bool) (who : String) (now : Instant) (hash : String)
    (reason : Option String) (row : ProposalRow) (db : Database)
    → Kept db.proposals (decide_row id approve who now hash reason row db).1.proposals
unfolding decide_row
decide_row-Kept id approve who now hash reason row db = elim (Bool-cases (is_pending row.status)) [
  | inr other ↦ rw other (Kept-refl db.proposals)
  | inl waiting ↦ rw waiting (elim (Bool-cases (str_eq row.ticket_hash hash)) [
    | inr other ↦ rw other (Kept-refl db.proposals)
    | inl same ↦ rw same (elim (Bool-cases (leb row.expires_at now)) [
      | inl late ↦ rw late (
          Kept-update id (set_status expired) db.proposals
            (λ r. record { ticket = refl; hash = refl; expiry = refl }))
      | inr early ↦ rw early (
          rw
            (reread-same id
              (with_proposals db (update id (decided approve who now reason) db.proposals)))
            (Kept-update id (decided approve who now reason) db.proposals
              (decided-SameTicket approve who now reason)))
    ])
  ])
]

pub decide_proposal-Kept :
    (id : String) (approve : Bool) (who : String) (now : Instant) (hash : String)
    (reason : Option String)
    → Along keeping (decide_proposal id approve who now hash reason)
unfolding decide_proposal
decide_proposal-Kept id approve who now hash reason = record {
  at = λ db. elim (Option-cases (lookup id db.proposals)) [
    | inl e ↦ rw (e, decide_proposal) (Kept-refl db.proposals)
    | inr (row, e) ↦ rw (e, decide_proposal) (decide_row-Kept id approve who now hash reason row db)
  ];
}
