-- ===== src/Predict/Tickets/Opened.antt =====
-- What opening a ticket writes.
use japan_agent.Base.{
  ℕ, suc, ◌≡◌, refl, subst, sym, ◌∙◌, ap, false, [], ◌∷◌, ◌++◌, some, Result, ok, err, any, length,
  Bool-cases, inl, inr,
}
use japan_agent.Base.Decimal.{Decimal}
use japan_agent.Base.Exec.{◌>>=◌, ◌>>◌, pure}
use japan_agent.Base.Exec.Inversion.{>>=-eq-ok, lift-eq-ok, outcome-eq}
use japan_agent.Time.{Instant}
use japan_agent.Predict.Ledger.{
  TicketCore, traded, Decision, debit, ticket_opened, Ledger, LedgerError, Hashes, append_journal,
  append_journal-eq-ok, transaction-cases,
}
use japan_agent.Predict.Cash.{append_cash_entry, new_entry}
use japan_agent.Predict.Cash.Entered.{append_cash_entry-eq-ok}
use japan_agent.Predict.Tickets.{
  TicketDraft, ticket_totals, decides, check_draft, core_of, clashes, new_ticket, decision_of,
}
use japan_agent.Predict.Tickets.Open.{
  insert_ticket, insert_decision, record_traded, pay_for_ticket, write_ticket, open_ticket_locked,
  open_ticket,
}
use japan_agent.Predict.Tickets.Backed.{IsBacked, check_draft-IsBacked}

-- The ledger after a ticket: one ticket, one debit of its cost and one decision more.
abbrev pub with_ticket : Hashes → TicketDraft → Instant → TicketCore → Ledger → Ledger → Ledger
with_ticket hashes d now core l l' =
    let id = suc (length l.tickets) in
    record l {
      tickets = l.tickets ++ new_ticket hashes core l ∷ [];
      cash =
          l.cash ++ new_entry hashes d.portfolio_id debit core.cost_total (some id) now l.cash ∷ [];
      decisions = l.decisions ++ decision_of d (traded id) now ∷ [];
      journal = l'.journal;
    }

pub record IsOpened (hashes : Hashes) (d : TicketDraft) (now : Instant) (l : Ledger) (id : ℕ)
    (l' : Ledger) : Type 0 where
  pub shares : Decimal
  pub cost : Decimal
  pub totals : ticket_totals d ≡ ok (shares, cost)
  pub backed : IsBacked d l
  pub unheld :
      any
        (clashes (core_of d shares cost now) (hashes.ticket (core_of d shares cost now)))
        l.tickets
      ≡ false
  pub next_id : id ≡ suc (length l.tickets)
  pub written : l' ≡ with_ticket hashes d now (core_of d shares cost now) l l'

insert_ticket-eq-ok :
    (hashes : Hashes) (core : TicketCore) (l : Ledger) {id : ℕ} {l' : Ledger}
    → insert_ticket hashes core l ≡ (ok id, l')
    → (any (clashes core (hashes.ticket core)) l.tickets ≡ false)
      × (id ≡ suc (length l.tickets))
      × (l' ≡ record l { tickets = l.tickets ++ new_ticket hashes core l ∷ [] })
unfolding insert_ticket
insert_ticket-eq-ok hashes core l h =
    elim (Bool-cases (any (clashes core (hashes.ticket core)) l.tickets)) [
      | inl held ↦ absurd (cc (ap (λ r. r.0) (rw (held, insert_ticket) at h)))
      | inr unheld ↦
          let (same_id, same_l) = outcome-eq (rw (unheld, insert_ticket) at h) in
          (unheld, sym same_id, sym same_l)
    ]

pub insert_decision-eq-ok :
    (e : Decision) (l : Ledger) {u : Unit {0}} {l' : Ledger}
    → insert_decision e l ≡ (ok u, l')
    → (any (decides e.portfolio_id e.forecast_id) l.decisions ≡ false)
      × (l' ≡ record l { decisions = l.decisions ++ e ∷ [] })
unfolding insert_decision
insert_decision-eq-ok e l h =
    elim (Bool-cases (any (decides e.portfolio_id e.forecast_id) l.decisions)) [
      | inl decided ↦ absurd (cc (ap (λ r. r.0) (rw (decided, insert_decision) at h)))
      | inr undecided ↦ (undecided, sym (outcome-eq (rw (undecided, insert_decision) at h)).1)
    ]

module _ (hashes : Hashes) (d : TicketDraft) (now : Instant) where
  -- The decision and the journal's entry.
  record_traded-eq-ok :
      (core : TicketCore) (id : ℕ) (l : Ledger) {n : ℕ} {l' : Ledger}
      → record_traded hashes d now core id l ≡ (ok n, l')
      → (n ≡ id)
        × (l' ≡ record l {
          decisions = l.decisions ++ decision_of d (traded id) now ∷ [];
          journal = l'.journal;
        })
  unfolding record_traded
  record_traded-eq-ok core id l {n} {l'} h =
      let decision = decision_of d (traded id) now in
      let payload =
        ticket_opened id d.portfolio_id d.condition_id d.outcome core.cost_total
          (hashes.ticket core) in
      let (_, l1, inserted, h1) =
        >>=-eq-ok (insert_decision decision) (λ _. append_journal hashes payload now >> pure id) l
          h in
      let (_, l2, journaled, h2) =
        >>=-eq-ok (append_journal hashes payload now) (λ _. pure id) l1 h1 in
      let (same_id, same_l) = outcome-eq h2 in
      let (_, decided) = insert_decision-eq-ok decision l inserted in
      let kept = append_journal-eq-ok hashes payload now l1 journaled in
      (
        sym same_id,
        subst (λ (w : Ledger). l' ≡ record w { journal = l'.journal }) decided
            (subst (λ (w : Ledger). w ≡ record l1 { journal = w.journal }) same_l kept),
      )

  pay_for_ticket-eq-ok :
      (core : TicketCore) (id : ℕ) (l : Ledger) {n : ℕ} {l' : Ledger}
      → pay_for_ticket hashes d now core id l ≡ (ok n, l')
      → (n ≡ id)
        × (l' ≡ record l {
          cash =
              l.cash
              ++ new_entry hashes d.portfolio_id debit core.cost_total (some id) now l.cash ∷ [];
          decisions = l.decisions ++ decision_of d (traded id) now ∷ [];
          journal = l'.journal;
        })
  unfolding pay_for_ticket
  pay_for_ticket-eq-ok core id l {n} {l'} h =
      let (row, l1, entered, h1) =
        >>=-eq-ok (append_cash_entry hashes d.portfolio_id debit core.cost_total (some id) now)
          (λ _. record_traded hashes d now core id) l h in
      let (_, paid) =
        append_cash_entry-eq-ok hashes d.portfolio_id debit core.cost_total (some id) now l
          entered in
      let (same_id, decided) = record_traded-eq-ok core id l1 h1 in
      (
        same_id,
        subst
            (λ (w : Ledger). l' ≡ record w {
              decisions = w.decisions ++ decision_of d (traded id) now ∷ [];
              journal = l'.journal;
            })
            paid decided,
      )

  -- A ticket that is opened is backed, and what is written is it, its debit and its decision.
  pub open_ticket_locked-IsOpened :
      (l : Ledger) {id : ℕ} {l' : Ledger}
      → open_ticket_locked hashes d now l ≡ (ok id, l')
      → IsOpened hashes d now l id l'
  unfolding open_ticket_locked write_ticket
  open_ticket_locked-IsOpened l {id} {l'} h =
      let (totals, summed, h1) =
        lift-eq-ok (ticket_totals d) (λ totals. write_ticket hashes d now totals) l h in
      let core = core_of d totals.0 totals.1 now in
      let (_, checked, h2) =
        lift-eq-ok (check_draft d l)
          (λ _. insert_ticket hashes core >>= λ n. pay_for_ticket hashes d now core n) l h1 in
      let (n, l1, inserted, h3) =
        >>=-eq-ok (insert_ticket hashes core) (λ n. pay_for_ticket hashes d now core n) l h2 in
      let (unheld, numbered, ticketed) = insert_ticket-eq-ok hashes core l inserted in
      let (same_id, paid) = pay_for_ticket-eq-ok core n l1 h3 in
      record {
        shares = totals.0;
        cost = totals.1;
        totals = summed;
        backed = check_draft-IsBacked d l checked;
        unheld = unheld;
        next_id = same_id ∙ numbered;
        written =
            subst
              (λ (m : ℕ). l' ≡ record l {
                tickets = l.tickets ++ new_ticket hashes core l ∷ [];
                cash =
                    l.cash
                    ++ new_entry hashes d.portfolio_id debit core.cost_total (some m) now l.cash
                      ∷ [];
                decisions = l.decisions ++ decision_of d (traded m) now ∷ [];
                journal = l'.journal;
              })
              numbered
              (subst
                (λ (w : Ledger). l' ≡ record w {
                  cash =
                      w.cash
                      ++ new_entry hashes d.portfolio_id debit core.cost_total (some n) now w.cash
                        ∷ [];
                  decisions = w.decisions ++ decision_of d (traded n) now ∷ [];
                  journal = l'.journal;
                })
                ticketed paid);
      }

  -- How opening a ticket ends.
  abbrev pub Opening : Ledger → Result LedgerError ℕ × Ledger → Type 0
  Opening l (err e, l') = l' ≡ l
  Opening l (ok id, l') = IsOpened hashes d now l id l'

  -- Opening a ticket either raises and leaves the ledger as it was, or the draft is backed by the
  -- ledger and adds up, no ticket of the portfolio is for the market or the forecast, and exactly one
  -- ticket, one debit of its cost and one decision are written, besides the journal.
  pub open_ticket-Opening : (l : Ledger) → Opening l (open_ticket hashes d now l)
  unfolding open_ticket
  open_ticket-Opening l = elim (transaction-cases (open_ticket_locked hashes d now) l) [
    | inl (e, rolled) ↦ subst (Opening l) (sym rolled) refl
    | inr (id, l', run, committed) ↦
        subst (Opening l) (sym committed) (open_ticket_locked-IsOpened l run)
  ]
