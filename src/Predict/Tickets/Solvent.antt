-- ===== src/Predict/Tickets/Solvent.antt =====
-- Opening a ticket and the sign of the portfolios' cash.
use japan_agent.Base.{ℕ, ◌<◌, ◌≡◌, Result-cases, ok, inl, inr, any, Bool-cases}
use japan_agent.Base.Decimal.{Decimal, magnitude, precision_limit}
use japan_agent.Base.Exec.Frame.{frame_rules}
use japan_agent.Time.{Instant}
use japan_agent.Predict.Ledger.{TicketCore, Decision, Ledger, Hashes}
use japan_agent.Predict.Cash.Solvent.{IsSolvent}
use japan_agent.Predict.Cash.Kept.{Keeps, Keeps-transaction, Keeps-journal, Keeps-debit}
use japan_agent.Predict.Tickets.{TicketDraft, ticket_totals, clashes, decides}
use japan_agent.Predict.Tickets.Open.{
  insert_ticket, insert_decision, record_traded, pay_for_ticket, write_ticket, open_ticket_locked,
  open_ticket,
}

Keeps-insert : (hashes : Hashes) (core : TicketCore) → Keeps (insert_ticket hashes core)
unfolding insert_ticket
Keeps-insert hashes core = record {
  at = λ l h. elim (Bool-cases (any (clashes core (hashes.ticket core)) l.tickets)) [
    | inl held ↦ rw (held, insert_ticket) h
    | inr unheld ↦ rw (unheld, insert_ticket) h
  ];
}

pub Keeps-decision : (d : Decision) → Keeps (insert_decision d)
unfolding insert_decision
Keeps-decision d = record {
  at = λ l h. elim (Bool-cases (any (decides d.portfolio_id d.forecast_id) l.decisions)) [
    | inl decided ↦ rw (decided, insert_decision) h
    | inr undecided ↦ rw (undecided, insert_decision) h
  ];
}

module _ (hashes : Hashes) (d : TicketDraft) (now : Instant) where
  Keeps-traded : (core : TicketCore) (id : ℕ) → Keeps (record_traded hashes d now core id)
  unfolding record_traded
  Keeps-traded core id = search (frame_rules, Keeps-decision, Keeps-journal)

  Keeps-pay :
      (core : TicketCore) (id : ℕ)
      → magnitude core.cost_total.coefficient < precision_limit
      → Keeps (pay_for_ticket hashes d now core id)
  unfolding pay_for_ticket
  Keeps-pay core id fits = search (frame_rules, Keeps-debit, Keeps-traded)

  Keeps-write :
      (totals : Decimal × Decimal)
      → magnitude totals.1.coefficient < precision_limit
      → Keeps (write_ticket hashes d now totals)
  unfolding write_ticket
  Keeps-write totals fits = search (frame_rules, Keeps-insert, Keeps-pay) depth 12

  pub Keeps-open_locked :
      ((shares cost : Decimal)
        → ticket_totals d ≡ ok (shares, cost)
        → magnitude cost.coefficient < precision_limit)
      → Keeps (open_ticket_locked hashes d now)
  unfolding open_ticket_locked
  Keeps-open_locked fits = record {
    at = λ l h. elim (Result-cases (ticket_totals d)) [
      | inl ((shares, cost), e) ↦
          rw (e, open_ticket_locked) ((Keeps-write (shares, cost) (fits shares cost e)).at l h)
      | inr (e, failed) ↦ rw (failed, open_ticket_locked) h
    ];
  }

  -- Opening a ticket keeps every portfolio's cash at zero or more, whether it is opened or refused,
  -- if the cost has at most 28 digits.
  pub open_ticket-IsSolvent :
      (l : Ledger)
      → ((shares cost : Decimal)
          → ticket_totals d ≡ ok (shares, cost)
          → magnitude cost.coefficient < precision_limit)
      → IsSolvent l.cash
      → IsSolvent (open_ticket hashes d now l).1.cash
  unfolding open_ticket
  open_ticket-IsSolvent l fits h =
      (Keeps-transaction (open_ticket_locked hashes d now) (Keeps-open_locked fits)).at l h
