-- ===== src/Predict/Cash.antt =====
-- predict_agent/cash.py: the cash of a portfolio, and the entries that move it.
pub mod Sign
pub mod Solvent
pub mod Entered
pub mod Kept
use japan_agent.Base.{
  ℕ, suc, ◌+◌, ◌≡◌, Bool, true, false, ◌&&◌, ◌||◌, not, Option, none, some, is_some, List, [], ◌∷◌,
  ◌++◌, String, str_eq, Result, ok, err, if◌then◌else◌, ◌==◌, any, length,
}
use japan_agent.Base.Int.{pos, negsuc}
use japan_agent.Base.Decimal.{Decimal, dec, add, mul, lt, eq}
use japan_agent.Base.Table.{lookup}
use japan_agent.Base.Exec.{Exec, pure, raise, lift, gets, ◌>>=◌, ◌>>◌, raise_if, modify}
use japan_agent.Time.{Instant}
use japan_agent.Predict.Ledger.{
  EntryType, funding, debit, credit, same_type, CashCore, CashEntry, TicketStatus, opened, settled,
  PaperTicket, Settlement, cash_entry, Ledger, LedgerError, invalid_amount, unknown_portfolio,
  funding_with_ticket, already_funded, wrong_funding, needs_ticket, unknown_ticket, other_portfolio,
  repeated_entry, wrong_debit, no_settlement, wrong_credit, insufficient_cash, integrity_error,
  Hashes, genesis_hash, append_journal,
}

-- ENTRY_SIGNS
abbrev pub entry_sign : EntryType → Decimal
entry_sign funding = dec 1 0
entry_sign credit = dec 1 0
entry_sign debit = record { coefficient = negsuc 0; places = 0 }

-- The loop of `available_cash`, in the order in which the entries were inserted.
unfoldable pub available_from : Decimal → String → List CashEntry → Decimal
available_from total id [] = total
available_from total id (e ∷ es) =
    let next =
      if str_eq e.core.portfolio_id id
      then add total (mul (entry_sign e.core.entry_type) e.core.amount)
      else total in
    available_from next id es

unfoldable pub available_cash : String → List CashEntry → Decimal
unfolding available_from
available_cash id entries = available_from (dec 0 0) id entries

abbrev pub is_debit : EntryType → Bool
is_debit debit = true
is_debit _ = false

abbrev pub is_funding : EntryType → Bool
is_funding funding = true
is_funding _ = false

-- SELECT … WHERE ticket_id = ?
unfoldable pub find_ticket : ℕ → List PaperTicket → Option PaperTicket
find_ticket id [] = none
find_ticket id (t ∷ ts) = if t.ticket_id == id then some t else find_ticket id ts

unfoldable pub find_settlement : ℕ → List Settlement → Option Settlement
find_settlement id [] = none
find_settlement id (s ∷ ss) = if s.ticket_id == id then some s else find_settlement id ss

abbrev pub is_for : ℕ → EntryType → CashEntry → Bool
is_for id type e =
    same_type e.core.entry_type type && elim e.core.ticket_id [ none ↦ false | some n ↦ n == id ]

abbrev pub is_open : TicketStatus → Bool
is_open opened = true
is_open settled = false

-- The record that a DEBIT or a CREDIT accounts for.
unfoldable pub check_record :
    EntryType → Decimal → ℕ → PaperTicket → Ledger → Result LedgerError (Unit {0})
unfolding find_settlement
check_record debit amount id t l =
    if not (is_open t.status) || not (eq amount t.core.cost_total) then err wrong_debit else ok tt
check_record type amount id t l = elim (find_settlement id l.settlements) [
  | none ↦ err no_settlement
  | some s ↦ if not (eq amount s.payout) then err wrong_credit else ok tt
]

unfoldable pub check_funding :
    String → Decimal → Decimal → Option ℕ → Ledger → Result LedgerError (Unit {0})
check_funding id amount bankroll ticket l =
    if is_some ticket
    then err funding_with_ticket
    else if any (λ e. str_eq e.core.portfolio_id id) l.cash
    then err already_funded
    else if not (eq amount bankroll)
    then err wrong_funding
    else ok tt

unfoldable pub check_ticket :
    String → EntryType → Decimal → Option ℕ → Ledger → Result LedgerError (Unit {0})
unfolding find_ticket check_record
check_ticket id type amount none l = err needs_ticket
check_ticket id type amount (some n) l = elim (find_ticket n l.tickets) [
  | none ↦ err unknown_ticket
  | some t ↦
      if not (str_eq t.core.portfolio_id id)
      then err other_portfolio
      else if any (is_for n type) l.cash
      then err repeated_entry
      else check_record type amount n t l
]

-- `_check_backing`
unfoldable pub check_backing :
    String → EntryType → Decimal → Option ℕ → Ledger → Result LedgerError (Unit {0})
unfolding check_funding check_ticket
check_backing id type amount ticket l = elim (lookup id l.portfolios) [
  | none ↦ err unknown_portfolio
  | some p ↦
      if is_funding type
      then check_funding id amount p.starting_bankroll ticket l
      else check_ticket id type amount ticket l
]

unfoldable pub last_entry : String → String → List CashEntry → String
last_entry previous id [] = previous
last_entry previous id (e ∷ es) =
    last_entry (if str_eq e.core.portfolio_id id then e.entry_hash else previous) id es

unfoldable pub new_entry :
    Hashes → String → EntryType → Decimal → Option ℕ → Instant → List CashEntry → CashEntry
unfolding last_entry
new_entry hashes id type amount ticket now entries =
    let core : CashCore = record {
      portfolio_id = id;
      entry_type = type;
      amount = amount;
      ticket_id = ticket;
      at = now;
      prev_hash = last_entry genesis_hash id entries;
    } in
    record { core = core; entry_hash = hashes.cash core }

-- INSERT INTO cash_ledger, whose entry_hash is UNIQUE; the row id is returned.
unfoldable pub insert_entry : CashEntry → Exec Ledger LedgerError ℕ
insert_entry e l =
    if any (λ f. str_eq f.entry_hash e.entry_hash) l.cash
    then (err integrity_error, l)
    else (ok (suc (length l.cash)), record l { cash = l.cash ++ e ∷ [] })

-- The checks of `append_cash_entry` before the insertion.
unfoldable pub check_entry :
    String → EntryType → Decimal → Option ℕ → Ledger → Result LedgerError (Unit {0})
unfolding check_backing available_cash
check_entry id type amount ticket l =
    if lt amount (dec 0 0) || (is_funding type && eq amount (dec 0 0))
    then err invalid_amount
    else elim (check_backing id type amount ticket l) [
      | err e ↦ err e
      | ok _ ↦
          if is_debit type && lt (available_cash id l.cash) amount
          then err insufficient_cash
          else ok tt
    ]

unfoldable pub append_cash_entry :
    Hashes → String → EntryType → Decimal → Option ℕ → Instant → Exec Ledger LedgerError ℕ
unfolding check_entry new_entry insert_entry
append_cash_entry hashes id type amount ticket now = do
  l ← gets (λ l. l)
  lift (check_entry id type amount ticket l)
  let e = new_entry hashes id type amount ticket now l.cash
  row ← insert_entry e
  append_journal hashes (cash_entry type id amount ticket e.entry_hash) now
  pure row
