-- ===== src/Predict/Cash/Kept.antt =====
-- Runs that keep every portfolio's cash at zero or more.
use japan_agent.Base.{ℕ, ◌<◌, Result-cases, Option, String, inl, inr}
use japan_agent.Base.Decimal.{Decimal, magnitude, precision_limit}
use japan_agent.Base.Exec.{Exec}
use japan_agent.Base.Exec.Frame.{Relation, Along}
use japan_agent.Time.{Instant}
use japan_agent.Predict.Ledger.{
  funding, debit, credit, JournalPayload, Ledger, LedgerError, Hashes, append_journal, transaction,
}
use japan_agent.Predict.Cash.{append_cash_entry}
use japan_agent.Predict.Cash.Solvent.{IsSolvent, append_cash_entry-IsSolvent}

-- The portfolios are solvent in the second ledger if they are in the first.
abbrev pub solvency : Relation Ledger
solvency = record {
  rel = λ l l'. IsSolvent l.cash → IsSolvent l'.cash;
  rel_refl = λ l h. h;
  rel_trans = λ p q h. q (p h);
}

abbrev pub Keeps : {A : Type 0} → Exec Ledger LedgerError A → Type 0
Keeps m = Along solvency m

pub Keeps-transaction :
    {A : Type 0} (m : Exec Ledger LedgerError A) → Keeps m → Keeps (transaction m)
unfolding transaction
Keeps-transaction m k = record {
  at = λ l h. elim (Result-cases (m l).0) [
    | inl (a, e) ↦ rw (e, transaction) (k.at l h)
    | inr (e, e') ↦ rw (e', transaction) h
  ];
}

pub Keeps-journal :
    (hashes : Hashes) (payload : JournalPayload) (now : Instant)
    → Keeps (append_journal hashes payload now)
unfolding append_journal
Keeps-journal hashes payload now = record { at = λ l h. h }

pub Keeps-credit :
    (hashes : Hashes) (id : String) (amount : Decimal) (ticket : Option ℕ) (now : Instant)
    → Keeps (append_cash_entry hashes id credit amount ticket now)
Keeps-credit hashes id amount ticket now = record {
  at = λ l h.
      append_cash_entry-IsSolvent hashes id credit amount ticket now l (λ e. absurd (cc e)) h;
}

pub Keeps-funding :
    (hashes : Hashes) (id : String) (amount : Decimal) (ticket : Option ℕ) (now : Instant)
    → Keeps (append_cash_entry hashes id funding amount ticket now)
Keeps-funding hashes id amount ticket now = record {
  at = λ l h.
      append_cash_entry-IsSolvent hashes id funding amount ticket now l (λ e. absurd (cc e)) h;
}

-- The amount has at most 28 digits.
pub Keeps-debit :
    (hashes : Hashes) (id : String) (amount : Decimal) (ticket : Option ℕ) (now : Instant)
    → magnitude amount.coefficient < precision_limit
    → Keeps (append_cash_entry hashes id debit amount ticket now)
Keeps-debit hashes id amount ticket now fits = record {
  at = λ l h. append_cash_entry-IsSolvent hashes id debit amount ticket now l (λ _. fits) h;
}
