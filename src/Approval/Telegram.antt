-- ===== src/Approval/Telegram.antt =====
-- TelegramApprovalChannel.handle_update of japan_agent/approve/telegram.py. The update is taken as
-- parsed: `none` for one without a callback query. The answer of Telegram to the last post is an
-- argument. `hmac.compare_digest` is equality; it raises on texts that are not ASCII, which is left
-- out.
pub mod Bound
use japan_agent.Base.{
  ℕ, zero, suc, ◌≡◌, Bool, true, false, ◌&&◌, ◌||◌, not, Option, none, some, List, [], ◌∷◌, String,
  str_eq, Result, ok, err, if◌then◌else◌,
}
use japan_agent.Base.Text.{concat, codes, same_codes}
use japan_agent.Base.Exec.{Exec, pure, raise, lift, ◌>>=◌, ◌>>◌}
use japan_agent.Time.{Datetime}
use japan_agent.Storage.Rows.{Database, ProposalRow}
use japan_agent.Storage.Proposals.{get_proposal}
use japan_agent.Approval
use japan_agent.Approval.{ApprovalService, ApprovalError}

pub record TelegramConfig : Type 0 where
  pub approval_chat_id : String
  pub approver_user_id : String
  pub webhook_secret : String

-- The keys of a callback query; texts are after `str`, the parts of the data are after `split("|")`, and
-- `has_id` says whether `id` is neither absent nor empty.
pub record Callback : Type 0 where
  pub sender_id : String
  pub chat_id : String
  pub parts : List String
  pub has_id : Bool

pub data TelegramError : Type 0 where
  invalid_secret not_a_callback not_the_approver malformed_callback ticket_mismatch : TelegramError
  post_failed : TelegramError
  approval_failed : ApprovalError → TelegramError

pub data Button : Type 0 where
  approve_button reject_button : Button

pub record Request : Type 0 where
  pub button : Button
  pub proposal_id : String
  pub short_hash : String

abbrev pub take : ℕ → List ℕ → List ℕ
take zero xs = []
take (suc n) [] = []
take (suc n) (x ∷ xs) = x ∷ take n xs

-- `text[:12] == prefix`
unfoldable pub has_prefix : String → String → Bool
has_prefix text prefix = same_codes (take 12 (codes text)) (codes prefix)

-- `A|proposal|hash` or `R|proposal|hash`
unfoldable pub parse_data : List String → Result TelegramError Request
parse_data (letter ∷ id ∷ hash ∷ []) =
    if str_eq letter "A"
    then ok (record { button = approve_button; proposal_id = id; short_hash = hash })
    else if str_eq letter "R"
    then ok (record { button = reject_button; proposal_id = id; short_hash = hash })
    else err malformed_callback
parse_data _ = err malformed_callback

unfoldable pub check_sender :
    TelegramConfig → String → Option Callback → Result TelegramError Callback
check_sender config secret none =
    if not (str_eq secret config.webhook_secret) then err invalid_secret else err not_a_callback
check_sender config secret (some c) =
    if not (str_eq secret config.webhook_secret)
    then err invalid_secret
    else if not (str_eq c.sender_id config.approver_user_id)
        || not (str_eq c.chat_id config.approval_chat_id)
    then err not_the_approver
    else ok c

abbrev pub approval : {A : Type 0} → Exec Database ApprovalError A → Exec Database TelegramError A
approval m db =
    let (r, db') = m db in (elim r [ ok a ↦ ok a | err e ↦ err (approval_failed e) ], db')

-- The decision for the button that was pressed; `approver` is "telegram-user:" and the sender.
unfoldable pub press :
    ApprovalService
    → Button
    → String
    → String
    → String
    → Datetime
    → String
    → Exec Database TelegramError ProposalRow
press service approve_button id approver hash now event_id =
    approval (Approval.approve service id approver hash now event_id)
press service reject_button id approver hash now event_id = approval (
    Approval.reject service id approver hash "Rejected using the Telegram ticket button" now
      event_id)

unfoldable pub matched : String → Option ProposalRow → Result TelegramError ProposalRow
unfolding has_prefix
matched short_hash none = err ticket_mismatch
matched short_hash (some row) =
    if has_prefix row.ticket_hash short_hash then ok row else err ticket_mismatch

unfoldable pub stored_for : Request → Database → Result TelegramError ProposalRow
unfolding matched
stored_for r db = matched r.short_hash (get_proposal db r.proposal_id)

unfoldable pub handle_update :
    ApprovalService
    → TelegramConfig
    → Option Callback
    → String
    → Datetime
    → String
    → Bool
    → Exec Database TelegramError Button
unfolding concat check_sender parse_data stored_for press
handle_update service config update secret now event_id posted = do
  c ← lift (check_sender config secret update)
  r ← lift (parse_data c.parts)
  row ← (λ db. (stored_for r db, db))
  _ ←
      press service r.button r.proposal_id (concat "telegram-user:" c.sender_id) row.ticket_hash now
        event_id
  lift (if c.has_id && not posted then err post_failed else ok r.button)
