-- ===== src/Approval/Tests.antt =====
-- A concrete press of a button.
use japan_agent.Base.{◌+◌, ◌≡◌, ◌⊎◌, refl, true, false, none, some, [], ◌∷◌}
use japan_agent.Base.Text.{concat}
use japan_agent.Base.Table.{lookup, update}
use japan_agent.Time.{aware, hours}
use japan_agent.Models.Enums.{pending}
use japan_agent.Risk.Samples.{noon, bought}
use japan_agent.Storage.Ledger.{append_event, new_event, taken, last_hash, next_sequence}
use japan_agent.Storage.Rows.{ProposalRow, Database}
use japan_agent.Storage.Proposals.{get_proposal, decide_proposal, decide_row, reread, decided}
use japan_agent.Approval.{ApprovalService, approve, record_event}
use japan_agent.Approval.Telegram.{
  TelegramConfig, Callback, Request, handle_update, press, check_sender, parse_data, stored_for,
  matched, has_prefix,
}
use japan_agent.Approval.Telegram.Bound.{Bound, After, handle_update-Bound}

abbrev service : ApprovalService
service = record { fingerprint = λ t. "f1"; hash = λ c. c.event_id }

abbrev config : TelegramConfig
config = record { approval_chat_id = "7"; approver_user_id = "42"; webhook_secret = "s" }

abbrev callback : Callback
callback = record {
  sender_id = "42";
  chat_id = "7";
  parts = "A" ∷ "p1" ∷ "0123456789ab" ∷ [];
  has_id = false;
}

abbrev waiting : ProposalRow
waiting = record {
  ticket = bought;
  status = pending;
  ticket_hash = "0123456789abcdef";
  expires_at = noon + hours 24;
  approved_by = none;
  approved_at = none;
  rejection_reason = none;
}

abbrev desk : Database
desk = record { proposals = ("p1", waiting) ∷ []; executions = []; events = [] }

abbrev after : Database
after = (handle_update service config (some callback) "s" (aware noon) "u1" true desk).1

handle_update-Bound_example :
    (after ≡ desk)
    ⊎ ((c : Callback) × (r : Request) × (row : ProposalRow) × (some callback ≡ some c)
        × Bound config "s" c r row desk
        × After service r.button r.proposal_id
            (concat "telegram-user:" c.sender_id)
            row.ticket_hash
            (aware noon)
            "u1"
            desk
            after)
handle_update-Bound_example =
    handle_update-Bound service config "s" (aware noon) "u1" true desk (some callback)

-- The proposal is approved in the name of the sender.
pressed : after.proposals ≡ ("p1", decided true "telegram-user:42" noon none waiting) ∷ []
unfolding handle_update check_sender parse_data stored_for matched has_prefix press concat approve
    record_event append_event new_event taken last_hash next_sequence decide_proposal decide_row
    reread get_proposal lookup update
pressed = refl
