-- ===== src/Predict/Tickets/Single.antt =====
-- At most one ticket of a portfolio for each market, and the portfolios' cash.
use japan_agent.Base.{
  ℕ, ◌≤◌, ◌≡◌, refl, subst, sym, ◌∙◌, ap, Bool, true, false, ◌&&◌, Bool-cases, List, [], ◌∷◌, ◌++◌,
  map, String, str_eq, str_eq_iff, Result, ok, err, any, count, count-append, inl, inr, arith,
}
use japan_agent.Time.{Instant}
use japan_agent.Predict.Ledger.{TicketCore, PaperTicket, Ledger, LedgerError, Hashes}
use japan_agent.Predict.Settlement.{settle_row}
use japan_agent.Predict.Tickets.{TicketDraft, core_of, holds, clashes, new_ticket}
use japan_agent.Predict.Tickets.Open.{open_ticket}
use japan_agent.Predict.Tickets.Opened.{Opening, open_ticket-Opening}

-- A portfolio has at most one ticket, open or settled, for a market.
abbrev pub IsSingle : List PaperTicket → Type 0
IsSingle tickets =
    (portfolio_id condition_id : String) → count (holds portfolio_id condition_id) tickets ≤ 1

none_held :
    (core : TicketCore) (hash : String) (ts : List PaperTicket)
    → any (clashes core hash) ts ≡ false
    → count (holds core.portfolio_id core.condition_id) ts ≡ 0
none_held core hash [] h = refl
none_held core hash (t ∷ ts) h = ground (arith, none_held core hash ts)

both : (a b : Bool) → a && b ≡ true → (a ≡ true) × (b ≡ true)
both a b h = ground arith

same_holder :
    (t : PaperTicket) (ts : List PaperTicket) (p c : String)
    → holds p c t ≡ true
    → count (holds t.core.portfolio_id t.core.condition_id) ts ≡ count (holds p c) ts
same_holder t ts p c h =
    let (portfolio, market) =
      both (str_eq t.core.portfolio_id p) (str_eq t.core.condition_id c) h in
    let first = (str_eq_iff t.core.portfolio_id p).0 portfolio in
    let second = (str_eq_iff t.core.condition_id c).0 market in
    ap (λ (q : String). count (holds q t.core.condition_id) ts) first
    ∙ ap (λ (d : String). count (holds p d) ts) second

appended-IsSingle :
    (t : PaperTicket) (ts : List PaperTicket)
    → count (holds t.core.portfolio_id t.core.condition_id) ts ≡ 0
    → IsSingle ts
    → IsSingle (ts ++ t ∷ [])
appended-IsSingle t ts fresh h p c =
    rw (count-append (holds p c) ts (t ∷ [])) (elim (Bool-cases (holds p c t)) [
      | inr other ↦ rw other (omega (arith, h p c))
      | inl mine ↦ rw mine (omega (arith, fresh, same_holder t ts p c mine))
    ])

pub Opening-IsSingle :
    (hashes : Hashes) (d : TicketDraft) (now : Instant) (l : Ledger)
    (q : Result LedgerError ℕ × Ledger)
    → Opening hashes d now l q
    → IsSingle l.tickets
    → IsSingle q.1.tickets
Opening-IsSingle hashes d now l (err e, l') rolled h =
    subst (λ (w : Ledger). IsSingle w.tickets) (sym rolled) h
Opening-IsSingle hashes d now l (ok id, l') opened h =
    let core = core_of d opened.shares opened.cost now in
    subst (λ (w : Ledger). IsSingle w.tickets) (sym opened.written)
      (appended-IsSingle (new_ticket hashes core l) l.tickets
        (none_held core (hashes.ticket core) l.tickets opened.unheld) h)

-- Where no portfolio has two tickets for one market, none has after a ticket is opened or refused.
pub open_ticket-IsSingle :
    (hashes : Hashes) (d : TicketDraft) (now : Instant) (l : Ledger)
    → IsSingle l.tickets
    → IsSingle (open_ticket hashes d now l).1.tickets
open_ticket-IsSingle hashes d now l h =
    Opening-IsSingle hashes d now l (open_ticket hashes d now l)
      (open_ticket-Opening hashes d now l) h

-- Settling tickets leaves who holds what.
pub settle_row-IsSingle :
    (id : ℕ) (ts : List PaperTicket) → IsSingle ts → IsSingle (map (settle_row id) ts)
settle_row-IsSingle id ts h p c = omega (arith, h p c, same_count ts)
  where
    same_count :
        (us : List PaperTicket) → count (holds p c) (map (settle_row id) us) ≡ count (holds p c) us
    same_count [] = refl
    same_count (u ∷ us) = ground (arith, same_count us)
