-- ===== src/Predict/Cash/Entered.antt =====
-- What an entry of cash that is made changes of the ledger.
use japan_agent.Base.Exec.Inversion.{returned}
use japan_agent.Base.{ℕ, subst, ◌≡◌, Option, [], ◌∷◌, ◌++◌, String, ok, arith}
use japan_agent.Base.Decimal.{Decimal}
use japan_agent.Time.{Instant}
use japan_agent.Predict.Ledger.{EntryType, Ledger, Hashes, append_journal}
use japan_agent.Predict.Cash.{check_entry, new_entry, insert_entry, append_cash_entry}

entered :
    (hashes : Hashes) (id : String) (type : EntryType) (amount : Decimal) (ticket : Option ℕ)
    (now : Instant) (l : Ledger) (n : ℕ)
    → (append_cash_entry hashes id type amount ticket now l).0 ≡ ok n
    → let l' = (append_cash_entry hashes id type amount ticket now l).1 in
      (check_entry id type amount ticket l ≡ ok tt)
      × (l' ≡ record l {
        cash = l.cash ++ new_entry hashes id type amount ticket now l.cash ∷ [];
        journal = l'.journal;
      })
unfolding append_cash_entry insert_entry append_journal
entered hashes id type amount ticket now l n h = ground arith

-- An entry that is made passed the checks; it changes the cash and the journal only.
pub append_cash_entry-eq-ok :
    (hashes : Hashes) (id : String) (type : EntryType) (amount : Decimal) (ticket : Option ℕ)
    (now : Instant) (l : Ledger) {n : ℕ} {l' : Ledger}
    → append_cash_entry hashes id type amount ticket now l ≡ (ok n, l')
    → (check_entry id type amount ticket l ≡ ok tt)
      × (l' ≡ record l {
        cash = l.cash ++ new_entry hashes id type amount ticket now l.cash ∷ [];
        journal = l'.journal;
      })
append_cash_entry-eq-ok hashes id type amount ticket now l {n} h =
    let (done, after) = returned h in
    let (checked, same) = entered hashes id type amount ticket now l n done in
    (
      checked,
      subst
          (λ (w : Ledger). w ≡ record l {
            cash = l.cash ++ new_entry hashes id type amount ticket now l.cash ∷ [];
            journal = w.journal;
          })
          after same,
    )
