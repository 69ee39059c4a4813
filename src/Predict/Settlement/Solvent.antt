-- ===== src/Predict/Settlement/Solvent.antt =====
-- Settlement and the sign of the portfolios' cash.
use japan_agent.Base.{
  ℕ, ◌≡◌, Bool, Bool-cases, Option-cases, Option, none, some, List, [], ◌∷◌, inl, inr, arith,
}
use japan_agent.Base.Decimal.{Decimal}
use japan_agent.Base.Exec.Frame.{Along-pure, Along-bind, frame_rules}
use japan_agent.Time.{Instant}
use japan_agent.Predict.Outcome.{Outcome}
use japan_agent.Predict.Observation.{Observation, pending_reason}
use japan_agent.Predict.Ledger.{Settlement, PaperTicket, Ledger, Hashes}
use japan_agent.Predict.Cash.{is_open, find_ticket}
use japan_agent.Predict.Cash.Solvent.{IsSolvent}
use japan_agent.Predict.Cash.Kept.{solvency, Keeps, Keeps-transaction, Keeps-journal, Keeps-credit}
use japan_agent.Predict.Settlement.{
  insert_settlement, close_ticket, record_payout, pay_ticket, settle_observed, settle_row_of,
  settle_found, tally, settle_ticket, settle_all, settle_open_tickets,
}

Keeps-insert : (s : Settlement) → Keeps (insert_settlement s)
unfolding insert_settlement
Keeps-insert s = record { at = λ l h. rw (same l) h }
  where
    same : (l : Ledger) → (insert_settlement s l).1.cash ≡ l.cash
    same l = ground arith

Keeps-close : (id : ℕ) → Keeps (close_ticket id)
unfolding close_ticket
Keeps-close id = record { at = λ l h. h }

module _ (hashes : Hashes) (now : Instant) where
  Keeps-payout :
      (t : PaperTicket) (o : Observation) (outcome : Outcome) (p : Decimal)
      → Keeps (record_payout hashes now t o outcome p)
  unfolding record_payout
  Keeps-payout t o outcome p =
      search (frame_rules, Keeps-insert, Keeps-close, Keeps-journal, Keeps-credit) depth 14

  Keeps-pay : (t : PaperTicket) (o : Observation) → Keeps (pay_ticket hashes now t o)
  unfolding pay_ticket
  Keeps-pay t o = search (frame_rules, Keeps-payout)

  Keeps-observed :
      (t : PaperTicket) (rows : List Observation) (o : Option Observation) (ambiguous : Bool)
      → Keeps (settle_observed hashes now t rows o ambiguous)
  unfolding settle_observed
  Keeps-observed t rows none ambiguous = search frame_rules
  Keeps-observed t rows (some o) ambiguous =
      elim (Option-cases (pending_reason (some o) ambiguous)) [
        | inl e ↦ rw (e, settle_observed) (search (frame_rules, Keeps-pay))
        | inr (reason, e) ↦ rw (e, settle_observed) (search frame_rules)
      ]

  Keeps-row : (t : PaperTicket) → Keeps (settle_row_of hashes now t)
  unfolding settle_row_of
  Keeps-row t = record {
    at = λ l h. elim (Bool-cases (is_open t.status)) [
      | inr other ↦ rw (other, settle_row_of) h
      | inl open' ↦ rw (open', settle_row_of) ((Keeps-observed t _ _ _).at l h)
    ];
  }

  Keeps-found : (found : Option PaperTicket) → Keeps (settle_found hashes now found)
  unfolding settle_found
  Keeps-found none = record { at = λ l h. h }
  Keeps-found (some t) = Keeps-row t

  Keeps-ticket : (id : ℕ) → Keeps (settle_ticket hashes now id)
  unfolding settle_ticket
  Keeps-ticket id =
      Keeps-transaction (λ l. settle_found hashes now (find_ticket id l.tickets) l)
        (record { at = λ l h. (Keeps-found (find_ticket id l.tickets)).at l h })

  Keeps-all : (ids : List ℕ) → Keeps (settle_all hashes now ids)
  unfolding settle_all
  Keeps-all [] = search frame_rules
  Keeps-all (id ∷ ids) =
      Along-bind solvency (settle_ticket hashes now id) _ (Keeps-ticket id) (λ result.
        Along-bind solvency (settle_all hashes now ids) _ (Keeps-all ids)
          (λ rest. Along-pure solvency (tally result rest)))

  -- Settling the open tickets keeps every portfolio's cash at zero or more, also where it ends in
  -- an exception.
  pub settle_open_tickets-IsSolvent :
      (l : Ledger) → IsSolvent l.cash → IsSolvent (settle_open_tickets hashes now l).1.cash
  unfolding settle_open_tickets
  settle_open_tickets-IsSolvent l h = (Keeps-all _).at l h
