-- ===== src/Predict/Settlement/Ends.antt =====
-- How the settlement of one ticket ends.
use japan_agent.Base.{
  ℕ, ◌≡◌, refl, Bool, Bool-cases, Option-cases, true, false, Option, none, some, List, Result, ok,
  err, inl, inr,
}
use japan_agent.Base.Decimal.{Decimal}
use japan_agent.Base.Exec.{Exec, pure, lift, ◌>>=◌}
use japan_agent.Time.{Instant}
use japan_agent.Predict.Outcome.{Outcome}
use japan_agent.Predict.Observation.{
  Observation, governing_observation, PendingReason, pending_reason, outcome_of, final_outcome,
}
use japan_agent.Predict.Ledger.{PaperTicket, Ledger, LedgerError, Hashes, transaction}
use japan_agent.Predict.Cash.{is_open, find_ticket}
use japan_agent.Predict.Settlement.{
  payout_per_share, observations_of, pay_ticket, TicketResult, is_settled, is_skipped, is_pending,
  pending_of, settle_observed, settle_row_of, settle_found, settle_ticket,
}
use japan_agent.Predict.Settlement.Paid.{Paid, PaidBy, pay_ticket-Paid}

-- The ways in which the settlement of a ticket ends.
pub data Ends (hashes : Hashes) (now : Instant) (id : ℕ) (l : Ledger)
    : Result LedgerError TicketResult → Ledger → Type 0 where
  refuses : (e : LedgerError) → Ends hashes now id l (err e) l
  skips :
      (t : PaperTicket)
      → find_ticket id l.tickets ≡ some t
      → is_open t.status ≡ false
      → Ends hashes now id l (ok is_skipped) l
  waits :
      (t : PaperTicket) (reason : PendingReason)
      → find_ticket id l.tickets ≡ some t
      → is_open t.status ≡ true
      → final_outcome (observations_of t.core.condition_id l.observations) ≡ none
      → Ends hashes now id l
          (ok
            (is_pending (pending_of t (observations_of t.core.condition_id l.observations) reason)))
          l
  pays :
      (t : PaperTicket) (g : Observation) (o : Outcome) (p : Decimal) (l' : Ledger)
      → find_ticket id l.tickets ≡ some t
      → is_open t.status ≡ true
      → final_outcome (observations_of t.core.condition_id l.observations) ≡ some o
      → payout_per_share t.core.outcome o ≡ ok p
      → Paid hashes now t g o p l l'
      → Ends hashes now id l (ok is_settled) l'

module _ (hashes : Hashes) (now : Instant) (id : ℕ) (l : Ledger) where
  abbrev EndsWith : Result LedgerError TicketResult × Ledger → Type 0
  EndsWith (r, l') = Ends hashes now id l r l'

  -- Rolled back, where the run raised.
  abbrev Rolled : Result LedgerError TicketResult × Ledger → Type 0
  Rolled (err e, l') = Unit
  Rolled (ok r, l') = Ends hashes now id l (ok r) l'

  rolled_back :
      (m : Exec Ledger LedgerError TicketResult) → Rolled (m l) → EndsWith (transaction m l)
  unfolding transaction
  rolled_back m h = back (m l) h
    where
      back :
          (q : Result LedgerError TicketResult × Ledger)
          → Rolled q
          → EndsWith (elim q.0 [ ok a ↦ (ok a, q.1) | err e ↦ (err e, l) ])
      back (err e, l') h = refuses e
      back (ok r, l') h = h

  module _ (t : PaperTicket) (found : find_ticket id l.tickets ≡ some t)
      (open' : is_open t.status ≡ true) where
    abbrev rows : List Observation
    rows = observations_of t.core.condition_id l.observations

    paid :
        (g : Observation) (ambiguous : Bool)
        → governing_observation rows ≡ (some g, ambiguous)
        → pending_reason (some g) ambiguous ≡ none
        → (q : Result LedgerError (Unit {0}) × Ledger) → PaidBy hashes now t g l q
        → Rolled ((lift q.0 >>= λ _. pure is_settled) q.1)
    unfolding final_outcome outcome_of
    paid g ambiguous governs due (err e, l') h = tt
    paid g ambiguous governs due (ok _, l') (o, p, stated', per_share, h) =
        pays t g o p l' found open' (rw governs (rw (due, outcome_of) stated')) per_share h

    observed :
        (o : Option Observation) (ambiguous : Bool)
        → governing_observation rows ≡ (o, ambiguous)
        → Rolled (settle_observed hashes now t rows o ambiguous l)
    unfolding settle_observed final_outcome outcome_of
    observed none ambiguous governs = waits t _ found open' (rw governs refl)
    observed (some g) ambiguous governs = elim (Option-cases (pending_reason (some g) ambiguous)) [
      | inr (reason, e) ↦
          rw (e, settle_observed)
            (waits t reason found open' (rw governs (rw (e, outcome_of) refl)))
      | inl e ↦
          rw (e, settle_observed)
            (paid g ambiguous governs e (pay_ticket hashes now t g l)
              (pay_ticket-Paid hashes now t g l))
    ]

  row_ends :
      (t : PaperTicket) → find_ticket id l.tickets ≡ some t → Rolled (settle_row_of hashes now t l)
  unfolding settle_row_of
  row_ends t found = elim (Bool-cases (is_open t.status)) [
    | inr closed ↦ rw (closed, settle_row_of) (skips t found closed)
    | inl open' ↦ rw (open', settle_row_of) (observed t found open' _ _ refl)
  ]

  found_ends :
      (o : Option PaperTicket) → find_ticket id l.tickets ≡ o → Rolled (settle_found hashes now o l)
  unfolding settle_found
  found_ends none e = tt
  found_ends (some t) e = row_ends t e

  -- The settlement of a ticket ends in one of four ways: it raises and the ledger is as before; the
  -- ticket is not open; it is open and its market has no final outcome, and nothing changes; or it
  -- is open and its market has one, and exactly one settlement and one credit are written, of the
  -- shares times the payout of that outcome, for a ticket that had no settlement, which is settled.
  pub settle_ticket-Ends : EndsWith (settle_ticket hashes now id l)
  unfolding settle_ticket
  settle_ticket-Ends =
      rolled_back (λ w. settle_found hashes now (find_ticket id w.tickets) w)
        (found_ends (find_ticket id l.tickets) refl)
