-- ===== src/Predict/Tickets/Open.antt =====
-- predict_agent/tickets.py: the writes of a ticket.
use japan_agent.Base.{ℕ, suc, some, [], ◌∷◌, ◌++◌, ok, err, if◌then◌else◌, any, length}
use japan_agent.Base.Exec.{Exec, pure, lift, gets, ◌>>=◌, ◌>>◌}
use japan_agent.Base.Decimal.{Decimal}
use japan_agent.Time.{Instant}
use japan_agent.Predict.Ledger.{
  TicketCore, traded, Decision, debit, ticket_opened, Ledger, LedgerError, insert_refused,
  integrity_error, Hashes, append_journal, transaction,
}
use japan_agent.Predict.Cash.{append_cash_entry}
use japan_agent.Predict.Tickets.{
  TicketDraft, ticket_totals, check_draft, core_of, clashes, new_ticket, decides, decision_of,
}

-- INSERT INTO paper_tickets; the row id is returned.
unfoldable pub insert_ticket : Hashes → TicketCore → Exec Ledger LedgerError ℕ
insert_ticket hashes core l =
    if any (clashes core (hashes.ticket core)) l.tickets then (err insert_refused, l) else (
      ok (suc (length l.tickets)),
      record l { tickets = l.tickets ++ new_ticket hashes core l ∷ [] },
    )

-- INSERT INTO decisions, whose key is the portfolio and the forecast.
unfoldable pub insert_decision : Decision → Exec Ledger LedgerError (Unit {0})
insert_decision d l =
    if any (decides d.portfolio_id d.forecast_id) l.decisions
    then (err integrity_error, l)
    else (ok tt, record l { decisions = l.decisions ++ d ∷ [] })

-- The writes that follow the insertion.
unfoldable pub record_traded :
    Hashes → TicketDraft → Instant → TicketCore → ℕ → Exec Ledger LedgerError ℕ
unfolding insert_decision
record_traded hashes d now core id = do
  insert_decision (decision_of d (traded id) now)
  append_journal hashes
      (ticket_opened id d.portfolio_id d.condition_id d.outcome core.cost_total
        (hashes.ticket core))
      now
  pure id

unfoldable pub pay_for_ticket :
    Hashes → TicketDraft → Instant → TicketCore → ℕ → Exec Ledger LedgerError ℕ
unfolding record_traded
pay_for_ticket hashes d now core id = do
  _ ← append_cash_entry hashes d.portfolio_id debit core.cost_total (some id) now
  record_traded hashes d now core id

unfoldable pub write_ticket :
    Hashes → TicketDraft → Instant → Decimal × Decimal → Exec Ledger LedgerError ℕ
unfolding insert_ticket pay_for_ticket
write_ticket hashes d now totals = do
  checked ← gets (check_draft d)
  lift checked
  let core = core_of d totals.0 totals.1 now
  id ← insert_ticket hashes core
  pay_for_ticket hashes d now core id

unfoldable pub open_ticket_locked : Hashes → TicketDraft → Instant → Exec Ledger LedgerError ℕ
unfolding write_ticket
open_ticket_locked hashes d now = do
  totals ← lift (ticket_totals d)
  write_ticket hashes d now totals

unfoldable pub open_ticket : Hashes → TicketDraft → Instant → Exec Ledger LedgerError ℕ
unfolding open_ticket_locked
open_ticket hashes d now = transaction (open_ticket_locked hashes d now)
