-- ===== src/Predict/Settlement/Paid.antt =====
-- What a settlement writes.
use japan_agent.Base.{
  subst, ℕ, ◌≡◌, refl, sym, ap, Result-cases, Option-cases, Option, none, some, [], ◌∷◌, ◌++◌, map,
  String, Result, ok, err, inl, inr, arith,
}
use japan_agent.Base.Decimal.{Decimal, mul}
use japan_agent.Base.Exec.{Exec, lift, ◌>>=◌, ◌>>◌}
use japan_agent.Time.{Instant}
use japan_agent.Predict.Outcome.{Outcome}
use japan_agent.Predict.Observation.{Observation}
use japan_agent.Predict.Ledger.{
  ticket_settled, integrity_error, EntryType, credit, PaperTicket, Settlement, Ledger, LedgerError,
  Hashes, append_journal,
}
use japan_agent.Predict.Cash.{find_settlement, append_cash_entry, new_entry, insert_entry}
use japan_agent.Predict.Settlement.{
  payout_per_share, insert_settlement, settle_row, close_ticket, stated, rules_hash_of,
  settlement_of, record_payout, pay_ticket,
}

-- The writes of a settlement: one settlement and one credit of the payout, and the ticket is
-- settled; the ticket had no settlement before.
pub record Paid (hashes : Hashes) (now : Instant) (t : PaperTicket) (g : Observation) (o : Outcome)
    (p : Decimal) (l l' : Ledger) : Type 0 where
  pub first : find_settlement t.ticket_id l.settlements ≡ none
  pub settlements :
      l'.settlements ≡ l.settlements ++ settlement_of t g o p (rules_hash_of t l) now ∷ []
  pub tickets : l'.tickets ≡ map (settle_row t.ticket_id) l.tickets
  pub cash :
      l'.cash
      ≡ l.cash
        ++ new_entry hashes t.core.portfolio_id credit
            (mul t.core.shares p)
            (some t.ticket_id)
            now
            l.cash
          ∷ []

entered :
    (hashes : Hashes) (id : String) (type : EntryType) (amount : Decimal) (ticket : Option ℕ)
    (now : Instant) (l : Ledger) (n : ℕ)
    → (append_cash_entry hashes id type amount ticket now l).0 ≡ ok n
    → let l' = (append_cash_entry hashes id type amount ticket now l).1 in
      (l'.cash ≡ l.cash ++ new_entry hashes id type amount ticket now l.cash ∷ [])
      × (l'.tickets ≡ l.tickets)
      × (l'.settlements ≡ l.settlements)
unfolding append_cash_entry insert_entry append_journal
entered hashes id type amount ticket now l n h = ground arith

inserted :
    (s : Settlement) (l : Ledger)
    → find_settlement s.ticket_id l.settlements ≡ none
    → insert_settlement s l ≡ (ok tt, record l { settlements = l.settlements ++ s ∷ [] })
unfolding insert_settlement
inserted s l e = rw (e, insert_settlement) refl

not_inserted :
    (s old : Settlement) (l : Ledger)
    → find_settlement s.ticket_id l.settlements ≡ some old
    → insert_settlement s l ≡ (err integrity_error, l)
unfolding insert_settlement
not_inserted s old l e = rw (e, insert_settlement) refl

module _ (hashes : Hashes) (now : Instant) (t : PaperTicket) (g : Observation) where
  abbrev PaidAt : Outcome → Decimal → Ledger → Result LedgerError (Unit {0}) × Ledger → Type 0
  PaidAt o p l (err e, l') = Unit
  PaidAt o p l (ok _, l') = Paid hashes now t g o p l l'

  module _ (o : Outcome) (p : Decimal) (l : Ledger) where
    abbrev closed : Ledger
    closed = record l {
      settlements = l.settlements ++ settlement_of t g o p (rules_hash_of t l) now ∷ [];
      tickets = map (settle_row t.ticket_id) l.tickets;
    }

    abbrev written : Settlement
    written = settlement_of t g o p (rules_hash_of t l) now

    abbrev crediting : Exec Ledger LedgerError (Unit {0})
    crediting =
        append_cash_entry hashes t.core.portfolio_id credit (mul t.core.shares p) (some t.ticket_id)
          now
        >>= λ _.
            append_journal hashes (ticket_settled t.ticket_id g.id o written.payout written.net_pnl)
              now

    credited :
        (r : Result LedgerError ℕ) (w : Ledger)
        → ((n : ℕ) → r ≡ ok n → Paid hashes now t g o p l w)
        → PaidAt o p l (
            (lift r >>= λ _.
            append_journal hashes
              (ticket_settled t.ticket_id g.id o written.payout written.net_pnl)
              now)
              w)
    unfolding append_journal
    credited (err e) w h = tt
    credited (ok n) w h =
        let paid = h n refl in
        record {
          first = paid.first;
          settlements = paid.settlements;
          tickets = paid.tickets;
          cash = paid.cash;
        }

    crediting-Paid :
        find_settlement t.ticket_id l.settlements ≡ none → PaidAt o p l (crediting closed)
    crediting-Paid e =
        credited
          (append_cash_entry hashes t.core.portfolio_id credit (mul t.core.shares p)
            (some t.ticket_id) now closed).0
          (append_cash_entry hashes t.core.portfolio_id credit (mul t.core.shares p)
            (some t.ticket_id) now closed).1
          (λ n done.
            let (cash, tickets, settlements) =
              entered hashes t.core.portfolio_id credit (mul t.core.shares p) (some t.ticket_id) now
                closed n done in
            record { first = e; settlements = settlements; tickets = tickets; cash = cash })

    recorded :
        find_settlement t.ticket_id l.settlements ≡ none
        → record_payout hashes now t g o p l ≡ crediting closed
    unfolding record_payout close_ticket
    recorded e =
        ap
          (λ (q : Result LedgerError (Unit {0}) × Ledger).
            ((λ (_ : Ledger). q) >> (close_ticket t.ticket_id >> crediting)) l)
          (inserted written l e)

    refused :
        (old : Settlement)
        → find_settlement t.ticket_id l.settlements ≡ some old
        → record_payout hashes now t g o p l ≡ (err integrity_error, l)
    unfolding record_payout close_ticket
    refused old e =
        ap
          (λ (q : Result LedgerError (Unit {0}) × Ledger).
            ((λ (_ : Ledger). q) >> (close_ticket t.ticket_id >> crediting)) l)
          (not_inserted written old l e)

    record_payout-Paid : PaidAt o p l (record_payout hashes now t g o p l)
    record_payout-Paid = elim (Option-cases (find_settlement t.ticket_id l.settlements)) [
      | inr (old, e) ↦ subst (PaidAt o p l) (sym (refused old e)) tt
      | inl e ↦ subst (PaidAt o p l) (sym (recorded e)) (crediting-Paid e)
    ]

  abbrev pub PaidBy : Ledger → Result LedgerError (Unit {0}) × Ledger → Type 0
  PaidBy l (err e, l') = Unit
  PaidBy l (ok _, l') =
      (o : Outcome) × (p : Decimal) × (g.outcome ≡ some o)
      × (payout_per_share t.core.outcome o ≡ ok p)
      × Paid hashes now t g o p l l'

  paid_by :
      (o : Outcome) (p : Decimal) (l : Ledger) (q : Result LedgerError (Unit {0}) × Ledger)
      → g.outcome ≡ some o
      → payout_per_share t.core.outcome o ≡ ok p
      → PaidAt o p l q
      → PaidBy l q
  paid_by o p l (err e, l') a b h = tt
  paid_by o p l (ok _, l') a b h = (o, p, a, b, h)

  pub pay_ticket-Paid : (l : Ledger) → PaidBy l (pay_ticket hashes now t g l)
  unfolding pay_ticket
  pay_ticket-Paid l = elim (Option-cases g.outcome) [
    | inl e ↦
        subst
          (λ x. PaidBy l (
            (lift (stated x) >>= λ outcome. lift (payout_per_share t.core.outcome outcome) >>= λ p.
            record_payout hashes now t g outcome p)
              l))
          (sym e) tt
    | inr (o, e) ↦ elim (Result-cases (payout_per_share t.core.outcome o)) [
      | inr (x, bad) ↦
          subst
            (λ x. PaidBy l (
              (lift (stated x) >>= λ outcome.
              lift (payout_per_share t.core.outcome outcome) >>= λ p.
              record_payout hashes now t g outcome p)
                l))
            (sym e) (rw bad tt)
      | inl (p, paid) ↦
          subst
            (λ x. PaidBy l (
              (lift (stated x) >>= λ outcome.
              lift (payout_per_share t.core.outcome outcome) >>= λ p.
              record_payout hashes now t g outcome p)
                l))
            (sym e) (rw paid (paid_by o p l _ e paid (record_payout-Paid o p l)))
    ]
  ]
