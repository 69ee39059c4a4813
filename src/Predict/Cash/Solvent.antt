-- ===== src/Predict/Cash/Solvent.antt =====
-- The sign of a portfolio's cash.
use japan_agent.Base.{
  ℕ, ◌<◌, ◌≡◌, refl, subst, Bool-cases, false, ◌&&◌, Option, List, [], ◌∷◌, ◌++◌, String, str_eq,
  str_eq_iff, ok, ◌⊎◌, inl, inr, if◌then◌else◌, arith,
}
use japan_agent.Base.Decimal.{Decimal, dec, add, mul, lt, magnitude, precision_limit}
use japan_agent.Time.{Instant}
use japan_agent.Predict.Ledger.{
  EntryType, funding, debit, credit, CashEntry, Ledger, Hashes, append_journal,
}
use japan_agent.Predict.Cash.{
  entry_sign, available_from, available_cash, check_entry, new_entry, insert_entry,
  append_cash_entry, is_debit,
}
use japan_agent.Base.Decimal.Sign.{IsNonneg, add-IsNonneg, lt-IsNonneg, mul-IsNonneg, dec-IsNonneg}
use japan_agent.Predict.Cash.Sign.{debit-IsNonneg}

available_from-append :
    (total : Decimal) (id : String) (es : List CashEntry) (e : CashEntry)
    → available_from total id (es ++ e ∷ []) ≡ (
        if str_eq e.core.portfolio_id id
        then add (available_from total id es) (mul (entry_sign e.core.entry_type) e.core.amount)
        else available_from total id es)
unfolding available_from
available_from-append total id [] e = refl
available_from-append total id (f ∷ fs) e =
    available_from-append
      (if str_eq f.core.portfolio_id id
        then add total (mul (entry_sign f.core.entry_type) f.core.amount)
        else total)
      id fs e

-- What the checks grant.
record Grants (id : String) (type : EntryType) (amount : Decimal) (l : Ledger) : Type 0 where
  pub nonneg : lt amount (dec 0 0) ≡ false
  pub covered : is_debit type && lt (available_cash id l.cash) amount ≡ false

check_entry-Grants :
    (id : String) (type : EntryType) (amount : Decimal) (ticket : Option ℕ) (l : Ledger)
    → check_entry id type amount ticket l ≡ ok tt
    → Grants id type amount l
unfolding check_entry
check_entry-Grants id type amount ticket l h = record {
  nonneg = ground arith;
  covered = ground arith;
}

-- The cash of all portfolios is zero or more.
abbrev pub IsSolvent : List CashEntry → Type 0
IsSolvent entries = (id : String) → IsNonneg (available_cash id entries)

paid-IsNonneg :
    (type : EntryType) (cash amount : Decimal)
    → (type ≡ debit → magnitude amount.coefficient < precision_limit)
    → IsNonneg cash
    → lt amount (dec 0 0) ≡ false
    → is_debit type && lt cash amount ≡ false
    → IsNonneg (add cash (mul (entry_sign type) amount))
paid-IsNonneg funding cash amount fits h k c =
    add-IsNonneg cash _ h (mul-IsNonneg (dec 1 0) amount (dec-IsNonneg 1 0) (lt-IsNonneg amount k))
paid-IsNonneg credit cash amount fits h k c =
    add-IsNonneg cash _ h (mul-IsNonneg (dec 1 0) amount (dec-IsNonneg 1 0) (lt-IsNonneg amount k))
paid-IsNonneg debit cash amount fits h k c =
    debit-IsNonneg cash amount (fits refl) h (lt-IsNonneg amount k) c

module _ (hashes : Hashes) (id : String) (type : EntryType) (amount : Decimal) (ticket : Option ℕ)
    (now : Instant) (l : Ledger) where
  appended-IsSolvent :
      (type ≡ debit → magnitude amount.coefficient < precision_limit)
      → Grants id type amount l
      → IsSolvent l.cash
      → IsSolvent (l.cash ++ new_entry hashes id type amount ticket now l.cash ∷ [])
  unfolding available_cash new_entry
  appended-IsSolvent fits g h j =
      rw
        (available_from-append (dec 0 0) j l.cash
          (new_entry hashes id type amount ticket now l.cash))
        (elim (Bool-cases (str_eq id j)) [
          | inr other ↦ rw other (h j)
          | inl same ↦ rw same (
              paid-IsNonneg type _ amount fits (h j) g.nonneg (
                subst (λ k. is_debit type && lt (available_cash k l.cash) amount ≡ false)
                  ((str_eq_iff id j).0 same) g.covered))
        ])

  cash_after :
      let after = (append_cash_entry hashes id type amount ticket now l).1.cash in
      (after ≡ l.cash)
      ⊎ ((check_entry id type amount ticket l ≡ ok tt)
          × (after ≡ l.cash ++ new_entry hashes id type amount ticket now l.cash ∷ []))
  unfolding append_cash_entry insert_entry append_journal
  cash_after = ground arith

  -- Where no portfolio's cash is below zero, none is after an entry, whether it is made or refused;
  -- the amount of a debit has at most 28 digits.
  pub append_cash_entry-IsSolvent :
      (type ≡ debit → magnitude amount.coefficient < precision_limit)
      → IsSolvent l.cash
      → IsSolvent (append_cash_entry hashes id type amount ticket now l).1.cash
  append_cash_entry-IsSolvent fits h = elim cash_after [
    | inl same ↦ rw same h
    | inr (granted, added) ↦
        rw added (appended-IsSolvent fits (check_entry-Grants id type amount ticket l granted) h)
  ]
