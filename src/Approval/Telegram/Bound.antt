-- ===== src/Approval/Telegram/Bound.antt =====
-- Which updates of Telegram decide on a proposal.
use japan_agent.Base.{
  ◌≡◌, refl, ap, Bool, Bool-cases, Result-cases, true, not, ◌&&◌, ◌⊎◌, inl, inr, Option, none, some,
  List, [], ◌∷◌, String, str_eq, str_eq_iff, Result, ok, err, arith, if◌then◌else◌, subst,
}
use japan_agent.Base.Text.{concat}
use japan_agent.Base.Exec.{lift, ◌>>=◌}
use japan_agent.Base.Table.{lookup}
use japan_agent.Time.{Datetime}
use japan_agent.Storage.Rows.{Database, ProposalRow}
use japan_agent.Storage.Proposals.{get_proposal}
use japan_agent.Approval
use japan_agent.Approval.{ApprovalService}
use japan_agent.Approval.Telegram.{
  post_failed, TelegramConfig, Callback, TelegramError, Button, approve_button, reject_button,
  Request, has_prefix, matched, parse_data, check_sender, stored_for, press, handle_update,
}

abbrev pub letter : Button → String
letter approve_button = "A"
letter reject_button = "R"

-- An update with the secret, from the approver and the chat of the configuration, with a button
-- of a ticket that is stored under the hash that the button shows.
pub record Bound (config : TelegramConfig) (secret : String) (c : Callback) (r : Request)
    (row : ProposalRow) (db : Database) : Type 0 where
  pub authentic : secret ≡ config.webhook_secret
  pub sender : c.sender_id ≡ config.approver_user_id
  pub chat : c.chat_id ≡ config.approval_chat_id
  pub request : parse_data c.parts ≡ ok r
  pub pressed : c.parts ≡ letter r.button ∷ r.proposal_id ∷ r.short_hash ∷ []
  pub stored : get_proposal db r.proposal_id ≡ some row
  pub shown : has_prefix row.ticket_hash r.short_hash ≡ true

-- The database after a decision of the approval service that goes by the button.
abbrev pub After :
    ApprovalService
    → Button
    → String
    → String
    → String
    → Datetime
    → String
    → Database
    → Database
    → Type 0
After service approve_button id approver hash now event_id db after =
    after ≡ (Approval.approve service id approver hash now event_id db).1
After service reject_button id approver hash now event_id db after =
    after
    ≡ (Approval.reject service id approver hash "Rejected using the Telegram ticket button" now
        event_id db).1

press-After :
    (service : ApprovalService) (b : Button) (id approver hash : String) (now : Datetime)
    (event_id : String) (db : Database)
    → After service b id approver hash now event_id db
        (press service b id approver hash now event_id db).1
unfolding press
press-After service approve_button id approver hash now event_id db = refl
press-After service reject_button id approver hash now event_id db = refl

parse_data_parts :
    (parts : List String) (r : Request)
    → parse_data parts ≡ ok r
    → parts ≡ letter r.button ∷ r.proposal_id ∷ r.short_hash ∷ []
unfolding parse_data
parse_data_parts [] r h = absurd (ground arith)
parse_data_parts (a ∷ []) r h = absurd (ground arith)
parse_data_parts (a ∷ b ∷ []) r h = absurd (ground arith)
parse_data_parts (a ∷ id ∷ hash ∷ d ∷ rest) r h = absurd (ground arith)
parse_data_parts (a ∷ id ∷ hash ∷ []) r h = elim (Bool-cases (str_eq a "A")) [
  | inl same ↦
      let made : r ≡ record { button = approve_button; proposal_id = id; short_hash = hash } =
        ground (arith, h, same) in
      rw made (ap (λ (x : String). x ∷ id ∷ hash ∷ []) ((str_eq_iff a "A").0 same))
  | inr other ↦ elim (Bool-cases (str_eq a "R")) [
    | inl same ↦
        let made : r ≡ record { button = reject_button; proposal_id = id; short_hash = hash } =
          ground (arith, h, other, same) in
        rw made (ap (λ (x : String). x ∷ id ∷ hash ∷ []) ((str_eq_iff a "R").0 same))
    | inr neither ↦ absurd (ground (arith, h, other, neither))
  ]
]

sender_checked :
    (config : TelegramConfig) (secret : String) (update : Option Callback) (c : Callback)
    → check_sender config secret update ≡ ok c
    → (update ≡ some c)
      × (secret ≡ config.webhook_secret)
      × (c.sender_id ≡ config.approver_user_id)
      × (c.chat_id ≡ config.approval_chat_id)
unfolding check_sender
sender_checked config secret none c h = absurd (ground arith)
sender_checked config secret (some d) c h = ground (
  arith,
  str_eq_iff secret config.webhook_secret,
  str_eq_iff d.sender_id config.approver_user_id,
  str_eq_iff d.chat_id config.approval_chat_id,
)

row_matched :
    (short_hash : String) (o : Option ProposalRow) (row : ProposalRow)
    → matched short_hash o ≡ ok row
    → (o ≡ some row) × (has_prefix row.ticket_hash short_hash ≡ true)
unfolding matched
row_matched short_hash none row h = absurd (ground arith)
row_matched short_hash (some found) row h =
    elim (Bool-cases (has_prefix found.ticket_hash short_hash)) [
      | inl shown ↦
          let same : found ≡ row = ground (arith, h, shown) in
          (
            ap some same,
            subst (λ (x : ProposalRow). has_prefix x.ticket_hash short_hash ≡ true) same shown,
          )
      | inr other ↦ absurd (ground (arith, h, other))
    ]

module _ (service : ApprovalService) (config : TelegramConfig) (secret : String) (now : Datetime)
    (event_id : String) (posted : Bool) (db : Database) where
  opened :
      (r : Request) (row : ProposalRow)
      → stored_for r db ≡ ok row
      → matched r.short_hash (get_proposal db r.proposal_id) ≡ ok row
  unfolding stored_for
  opened r row h = h

  -- The last step leaves the database alone.
  pressed :
      (b : Button) (c : Callback) (q : Result TelegramError ProposalRow × Database)
      → ((lift q.0 >>= λ _. lift (if c.has_id && not posted then err post_failed else ok b)) q.1).1
        ≡ q.1
  pressed b c (ok row, after) = refl
  pressed b c (err e, after) = refl

  -- An update of Telegram leaves the database as it was, or it is bound to a stored ticket, and the
  -- database is as after the decision of its button on that ticket, under its hash and in the name
  -- of the sender.
  pub handle_update-Bound :
      (update : Option Callback)
      → let after = (handle_update service config update secret now event_id posted db).1 in
        (after ≡ db)
        ⊎ ((c : Callback) × (r : Request) × (row : ProposalRow) × (update ≡ some c)
            × Bound config secret c r row db
            × After service r.button r.proposal_id
                (concat "telegram-user:" c.sender_id)
                row.ticket_hash
                now
                event_id
                db
                after)
  unfolding handle_update get_proposal lookup
  handle_update-Bound update = elim (Result-cases (check_sender config secret update)) [
    | inr (e, bad) ↦ inl (rw (bad, handle_update) refl)
    | inl (c, sent) ↦ elim (Result-cases (parse_data c.parts)) [
      | inr (e, bad) ↦ inl (rw (sent, handle_update) (rw bad refl))
      | inl (r, parsed) ↦ elim (Result-cases (stored_for r db)) [
        | inr (e, bad) ↦ inl (rw (sent, handle_update) (rw parsed (rw bad refl)))
        | inl (row, found) ↦
            let (same, authentic, sender, chat) = sender_checked config secret update c sent in
            let (stored, shown) =
              row_matched r.short_hash (get_proposal db r.proposal_id) row (opened r row found) in
            inr (
              c,
              r,
              row,
              same,
              record {
                authentic = authentic;
                sender = sender;
                chat = chat;
                request = parsed;
                pressed = parse_data_parts c.parts r parsed;
                stored = stored;
                shown = shown;
              },
              rw (sent, handle_update)
                  (rw parsed (
                    rw found (
                      rw
                        (pressed r.button c (
                          press service r.button r.proposal_id (concat "telegram-user:" c.sender_id)
                            row.ticket_hash now event_id db))
                        (press-After service r.button r.proposal_id
                          (concat "telegram-user:" c.sender_id) row.ticket_hash now event_id db)))),
            )
      ]
    ]
  ]
