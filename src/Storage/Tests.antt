-- ===== src/Storage/Tests.antt =====
-- Concrete ledgers and rows.
use native.Mathlib.Decide.{ℕ_discrete}
use japan_agent.Base.{
  ℕ, ◌+◌, ◌≡◌, refl, true, none, some, List, [], ◌∷◌, ◌++◌, String, str_eq, ok, err, ◌⊎◌, ◌↔◌, ◌==◌,
  ◌||◌, ◌&&◌, not, leb, length, if◌then◌else◌, arith,
}
use japan_agent.Time.{seconds, hours, days}
use japan_agent.Base.Text.{codes}
use japan_agent.Base.Table.{lookup, update}
use japan_agent.Models.Enums.{pending, expired}
use japan_agent.Risk.Samples.{noon, bought}
use japan_agent.Storage.Rows.{ProposalRow, Database, proposal_expired}
use japan_agent.Storage.Proposals.{decide_proposal, decide_row, set_status}
use japan_agent.Storage.Proposals.Decide.{Decision, decide_proposal-Decision}
use japan_agent.Storage.Iso.{iso_le, isoformat}
use japan_agent.Storage.Iso.Order.{iso_le_fraction}
use japan_agent.Storage.Ledger.{
  Core, Event, genesis, last_hash, verify_from, verify_event_chain, append_event, new_event,
  next_sequence, taken, integrity_error,
}
use japan_agent.Storage.Ledger.Chain.{
  IsChain, verify_event_chain_iff, Appends, append_event-Appends,
}
use japan_agent.Storage.Ledger.Tamper.{cores, Collision, chain_tamper_evidence}

-- A hash that tells the first event from the others.
abbrev toy_hash : Core ℕ → String
toy_hash c = if str_eq c.previous_hash genesis then "h1" else "h2"

abbrev first : Core ℕ
first = record {
  event_id = "e1";
  occurred_at = 10;
  kind = "A";
  aggregate_id = some "p1";
  payload = 7;
  previous_hash = genesis;
}

abbrev ledger : List (Event ℕ)
ledger = (record { sequence = 1; core = first; event_hash = "h1" }) ∷ []

-- The same event under another sequence number.
abbrev renumbered : List (Event ℕ)
renumbered = (record { sequence = 5; core = first; event_hash = "h1" }) ∷ []

ledger_verifies : verify_event_chain toy_hash ledger ≡ ok 1
unfolding verify_event_chain verify_from
ledger_verifies = refl

renumbered_verifies : verify_event_chain toy_hash renumbered ≡ ok 1
unfolding verify_event_chain verify_from
renumbered_verifies = refl

same_end : last_hash genesis ledger ≡ last_hash genesis renumbered
unfolding last_hash
same_end = refl

verify_event_chain_iff_example :
    (verify_event_chain toy_hash ledger ≡ ok 1)
    ↔ (IsChain toy_hash genesis ledger × (1 ≡ length ledger))
verify_event_chain_iff_example = verify_event_chain_iff toy_hash ledger 1

append_event-Appends_example :
    Appends toy_hash "e2" "B" none 8 20 1 ledger (append_event toy_hash "e2" "B" none 8 20 ledger)
append_event-Appends_example =
    append_event-Appends toy_hash "e2" "B" none 8 20 ledger 1 ledger_verifies

-- The second append succeeds, and a repeated id does not.
appended :
    let e = new_event toy_hash "e2" "B" none 8 20 ledger in
    append_event toy_hash "e2" "B" none 8 20 ledger ≡ (ok e, ledger ++ e ∷ [])
unfolding append_event taken new_event last_hash next_sequence
appended = refl

repeated : append_event toy_hash "e1" "B" none 8 20 ledger ≡ (err integrity_error, ledger)
unfolding append_event taken new_event last_hash next_sequence
repeated = refl

chain_tamper_evidence_example :
    (cores ledger ≡ cores renumbered) ⊎ Collision toy_hash ledger renumbered
chain_tamper_evidence_example =
    chain_tamper_evidence ℕ_discrete toy_hash ledger renumbered 1 ledger_verifies
      renumbered_verifies same_end

iso_le_fraction_example :
    iso_le (seconds 5 + 0) (seconds 5 + 250_000)
    ≡ ((250_000 == 0) || (not (0 == 0) && leb 0 250_000))
iso_le_fraction_example = iso_le_fraction 5 0 250_000 (omega arith) (omega arith)

abbrev waiting : ProposalRow
waiting = record {
  ticket = bought;
  status = pending;
  ticket_hash = "f1";
  expires_at = noon + hours 24;
  approved_by = none;
  approved_at = none;
  rejection_reason = none;
}

abbrev desk : Database
desk = record { proposals = ("p1", waiting) ∷ []; executions = []; events = [] }

decide_proposal-Decision_example :
    let (r, desk') = decide_proposal "p1" true "ann" (noon + hours 25) "f1" none desk in
    Decision "p1" true "ann" (noon + hours 25) "f1" none desk r desk'
decide_proposal-Decision_example =
    decide_proposal-Decision "p1" true "ann" (noon + hours 25) "f1" none desk

-- A day later the proposal is expired, and stays so.
too_late :
    decide_proposal "p1" true "ann" (noon + hours 25) "f1" none desk
    ≡ (err proposal_expired, record desk { proposals = ("p1", set_status expired waiting) ∷ [] })
unfolding decide_proposal decide_row lookup update
too_late = refl

-- The last day of the cycle of 400 years, a leap year's last day, and the first of March after a
-- century without a leap day.
iso_texts :
    (isoformat (days 146_096 + hours 23 + 5) ≡ codes "0400-12-31T23:00:00.000005Z")
    × (isoformat (days 1_460) ≡ codes "0004-12-31T00:00:00Z")
    × (isoformat (days (36_159 + 59)) ≡ codes "0100-03-01T00:00:00Z")
unfolding isoformat
iso_texts = (refl, refl, refl)
