-- ===== src/Predict/Settlement.antt =====
-- predict_agent/settlement.py: the settlement of open tickets.
pub mod Solvent
pub mod Paid
pub mod Ends
use japan_agent.Base.{
  ℕ, suc, ◌+◌, ◌≡◌, Bool, true, false, not, Option, none, some, List, [], ◌∷◌, ◌++◌, String, str_eq,
  Result, ok, err, if◌then◌else◌, ◌==◌, ltb, any, filter, map,
}
use japan_agent.Base.Decimal.{Decimal, dec, sub, mul}
use japan_agent.Base.Table.{Table, lookup}
use japan_agent.Base.Exec.{Exec, pure, raise, lift, gets, ◌>>=◌, ◌>>◌, raise_if, modify}
use japan_agent.Time.{Instant}
use japan_agent.Predict.Outcome.{Outcome, yes, no, half, unknown, same_outcome}
use japan_agent.Predict.Observation.{
  Observation, governing_observation, PendingReason, awaiting_resolution, pending_reason, starting,
  ending,
}
use japan_agent.Predict.Ledger.{
  TicketStatus, settled, PaperTicket, Market, Settlement, ticket_settled, credit, Ledger,
  LedgerError, no_payout, unknown_ticket, integrity_error, Hashes, append_journal, transaction,
}
use japan_agent.Predict.Cash.{find_ticket, find_settlement, is_open, append_cash_entry}

-- A holding is YES or NO.
unfoldable pub payout_per_share : Outcome → Outcome → Result LedgerError Decimal
payout_per_share half outcome = err no_payout
payout_per_share unknown outcome = err no_payout
payout_per_share held half = ok (dec 5 1)
payout_per_share held unknown = err no_payout
payout_per_share held outcome = ok (if same_outcome held outcome then dec 1 0 else dec 0 0)

-- SELECT … WHERE condition_id = ? ORDER BY id, in the order of insertion
unfoldable pub observations_of : String → Table Observation → List Observation
observations_of id [] = []
observations_of id ((key, o) ∷ rows) =
    let rest = observations_of id rows in if str_eq key id then o ∷ rest else rest

-- `resolved_since`
unfoldable pub resolved_since : List Observation → Option Instant
unfolding ending
resolved_since [] = none
resolved_since (o ∷ os) =
    let rest = resolved_since os in
    if not (str_eq o.status "resolved") then rest else elim rest [
      | none ↦ some (ending o)
      | some t ↦ some (if ltb t (ending o) then t else ending o)
    ]

pub record PendingSettlement : Type 0 where
  pub ticket_id : ℕ
  pub condition_id : String
  pub reason : PendingReason
  pub resolved_at : Option Instant

-- INSERT INTO settlements, whose key is the ticket.
unfoldable pub insert_settlement : Settlement → Exec Ledger LedgerError (Unit {0})
unfolding find_settlement
insert_settlement s l = elim (find_settlement s.ticket_id l.settlements) [
  | some _ ↦ (err integrity_error, l)
  | none ↦ (ok tt, record l { settlements = l.settlements ++ s ∷ [] })
]

-- UPDATE paper_tickets SET status = 'SETTLED' WHERE ticket_id = ?
abbrev pub settle_row : ℕ → PaperTicket → PaperTicket
settle_row id t = if t.ticket_id == id then record t { status = settled } else t

unfoldable pub close_ticket : ℕ → Exec Ledger LedgerError (Unit {0})
close_ticket id l = (ok tt, record l { tickets = map (settle_row id) l.tickets })

abbrev pub current_rules : Option Market → String → String
current_rules none other = other
current_rules (some m) other = m.current_rules_hash

abbrev pub rules_hash_of : PaperTicket → Ledger → String
rules_hash_of t l = current_rules (lookup t.core.condition_id l.markets) t.core.rules_hash

abbrev pub settlement_of :
    PaperTicket → Observation → Outcome → Decimal → String → Instant → Settlement
settlement_of t o outcome per_share rules_hash now =
    let payout = mul t.core.shares per_share in
    record {
      ticket_id = t.ticket_id;
      observation_id = o.id;
      outcome = outcome;
      payout_per_share = per_share;
      payout = payout;
      net_pnl = sub payout t.core.cost_total;
      rules_hash_at_settlement = rules_hash;
      settled_at = now;
    }

abbrev pub stated : Option Outcome → Result LedgerError Outcome
stated none = err no_payout
stated (some o) = ok o

-- The writes of a settlement.
unfoldable pub record_payout :
    Hashes
    → Instant
    → PaperTicket
    → Observation
    → Outcome
    → Decimal
    → Exec Ledger LedgerError (Unit {0})
unfolding insert_settlement close_ticket
record_payout hashes now t o outcome per_share = do
  rules_hash ← gets (rules_hash_of t)
  let s = settlement_of t o outcome per_share rules_hash now
  insert_settlement s
  close_ticket t.ticket_id
  _ ← append_cash_entry hashes t.core.portfolio_id credit s.payout (some t.ticket_id) now
  append_journal hashes (ticket_settled t.ticket_id o.id outcome s.payout s.net_pnl) now

unfoldable pub pay_ticket :
    Hashes → Instant → PaperTicket → Observation → Exec Ledger LedgerError (Unit {0})
unfolding payout_per_share record_payout
pay_ticket hashes now t o = do
  outcome ← lift (stated o.outcome)
  per_share ← lift (payout_per_share t.core.outcome outcome)
  record_payout hashes now t o outcome per_share

-- What the loop does with one ticket: it is settled, pending, or no longer open.
pub data TicketResult : Type 0 where
  is_settled is_skipped : TicketResult
  is_pending : PendingSettlement → TicketResult

abbrev pub pending_of : PaperTicket → List Observation → PendingReason → PendingSettlement
pending_of t rows reason = record {
  ticket_id = t.ticket_id;
  condition_id = t.core.condition_id;
  reason = reason;
  resolved_at = resolved_since rows;
}

unfoldable pub settle_observed :
    Hashes
    → Instant
    → PaperTicket
    → List Observation
    → Option Observation
    → Bool
    → Exec Ledger LedgerError TicketResult
settle_observed hashes now t rows none ambiguous =
    pure (is_pending (pending_of t rows awaiting_resolution))
settle_observed hashes now t rows (some o) ambiguous = elim (pending_reason (some o) ambiguous) [
  | some reason ↦ pure (is_pending (pending_of t rows reason))
  | none ↦ (do pay_ticket hashes now t o; pure is_settled)
]

-- The body of the loop, inside its transaction.
unfoldable pub settle_row_of : Hashes → Instant → PaperTicket → Exec Ledger LedgerError TicketResult
unfolding settle_observed observations_of
settle_row_of hashes now t l =
    if not (is_open t.status)
    then (ok is_skipped, l)
    else (let rows = observations_of t.core.condition_id l.observations in
        let (o, ambiguous) = governing_observation rows in
        settle_observed hashes now t rows o ambiguous l)

-- The row is found, since tickets are never deleted.
unfoldable pub settle_found :
    Hashes → Instant → Option PaperTicket → Exec Ledger LedgerError TicketResult
settle_found hashes now none l = (err unknown_ticket, l)
settle_found hashes now (some t) l = settle_row_of hashes now t l

unfoldable pub settle_ticket : Hashes → Instant → ℕ → Exec Ledger LedgerError TicketResult
unfolding settle_found
settle_ticket hashes now id =
    transaction (λ l. settle_found hashes now (find_ticket id l.tickets) l)

pub record SettlementSummary : Type 0 where
  pub settled_count : ℕ
  pub pending : List PendingSettlement

abbrev pub tally : TicketResult → SettlementSummary → SettlementSummary
tally is_settled s = record s { settled_count = suc s.settled_count }
tally is_skipped s = s
tally (is_pending p) s = record s { pending = p ∷ s.pending }

-- The loop over the tickets that were open at the start; an exception ends it, and what was
-- committed stays.
unfoldable pub settle_all : Hashes → Instant → List ℕ → Exec Ledger LedgerError SettlementSummary
unfolding settle_ticket
settle_all hashes now [] = pure (record { settled_count = 0; pending = [] })
settle_all hashes now (id ∷ ids) = do
  result ← settle_ticket hashes now id
  rest ← settle_all hashes now ids
  pure (tally result rest)

unfoldable pub settle_open_tickets : Hashes → Instant → Exec Ledger LedgerError SettlementSummary
unfolding settle_all
settle_open_tickets hashes now l =
    settle_all hashes now (map (λ t. t.ticket_id) (filter (λ t. is_open t.status) l.tickets)) l
