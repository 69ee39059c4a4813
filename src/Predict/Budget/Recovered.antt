-- ===== src/Predict/Budget/Recovered.antt =====
-- The attempts that a crash left are closed.
use mathlib.Core.Path.{ap₂}
use mathlib.Core.List.{append_assoc}
use japan_agent.Base.{
  ℕ, suc, ◌≤◌, ◌<◌, ◌≡◌, refl, subst, sym, ◌∙◌, ap, Bool, true, false, Bool-cases, some, List, [],
  ◌∷◌, ◌++◌, map, String, Result, ok, if◌then◌else◌, filter, count, inl, inr, arith,
}
use japan_agent.Base.Decimal.{Decimal, dec, lt}
use japan_agent.Base.Table.{Table}
use japan_agent.Base.Exec.{pure, lift, ◌>>=◌, ◌>>◌}
use japan_agent.Time.{Instant}
use japan_agent.Predict.Ledger.{
  failed, is_started, Attempt, attempt_failed, Ledger, LedgerError, Hashes, append_journal,
  transaction,
}
use japan_agent.Predict.Forecasts.{valid_cost}
use japan_agent.Predict.Forecasts.Attempts.{
  find_attempt, finish_row, finish_attempt, started_row, fail_attempt_locked, fail_attempt,
}
use japan_agent.Predict.Budget.{
  attempt_caps, highest_of, cap_of, recover_all, recover_interrupted_attempts,
}
use japan_agent.Predict.Budget.Charged.{cap_of-not_negative}

-- The row ids count up from a number, as AUTOINCREMENT gives them.
abbrev pub IsNumbered : ℕ → List Attempt → Type 0
IsNumbered n [] = Unit
IsNumbered n (a ∷ as') = (a.attempt_id ≡ suc n) × IsNumbered (suc n) as'

module _ (id : ℕ) (now : Instant) (cost : Decimal) (error : String) where
  abbrev fail_row : Attempt → Attempt
  fail_row = finish_row id failed now cost (some error)

  untouched : (n : ℕ) (as' : List Attempt) → IsNumbered n as' → id ≤ n → map fail_row as' ≡ as'
  untouched n [] h k = refl
  untouched n (a ∷ as') (e, h) k = ground (arith, untouched (suc n) as' h)

  failed_there :
      (n : ℕ) (pre : List Attempt) (a : Attempt) (post : List Attempt)
      → IsNumbered n (pre ++ a ∷ post)
      → a.attempt_id ≡ id
      → (n < id)
        × (find_attempt id (pre ++ a ∷ post) ≡ some a)
        × (map fail_row (pre ++ a ∷ post) ≡ pre ++ fail_row a ∷ post)
  unfolding find_attempt
  failed_there n [] a post (e, h) k = ground (arith, untouched (suc n) post h)
  failed_there n (b ∷ pre) a post (e, h) k =
      let (more, found, mapped) = failed_there (suc n) pre a post h k in
      ground (arith, more, found, mapped)

module _ (hashes : Hashes) (now : Instant) where
  abbrev interrupted : ℕ → Decimal → Ledger → Ledger
  interrupted id cost l = record l {
    attempts = map (fail_row id now cost "INTERRUPTED") l.attempts;
    journal = (append_journal hashes (attempt_failed id cost "INTERRUPTED") now l).1.journal;
  }

  -- A run of `fail_attempt`, after the two checks that may fail.
  abbrev failing :
      ℕ
      → Decimal
      → Ledger
      → Result LedgerError (Unit {0})
      → Result LedgerError Attempt
      → Result LedgerError (Unit {0}) × Ledger
  failing id cost l checked row =
      transaction
        (λ _.
          (lift checked
              >> (lift row >>= λ _.
                  finish_attempt id failed now cost (some "INTERRUPTED")
                  >> append_journal hashes (attempt_failed id cost "INTERRUPTED") now))
            l)
        l

  fail_attempt-interrupted :
      (id : ℕ) (cost : Decimal) (l : Ledger) (a : Attempt)
      → lt cost (dec 0 0) ≡ false
      → find_attempt id l.attempts ≡ some a
      → is_started a.status ≡ true
      → fail_attempt hashes id cost "INTERRUPTED" now l ≡ (ok tt, interrupted id cost l)
  unfolding fail_attempt fail_attempt_locked transaction finish_attempt append_journal
  fail_attempt-interrupted id cost l a h found begun =
      ap₂ (failing id cost l) (checked cost h) (row found begun)
    where
      checked : (c : Decimal) → lt c (dec 0 0) ≡ false → valid_cost c ≡ ok tt
      checked c k = unfold valid_cost in rw k refl

      row :
          find_attempt id l.attempts ≡ some a
          → is_started a.status ≡ true
          → started_row (find_attempt id l.attempts) ≡ ok a
      row f b = unfold started_row in rw (f, b) refl

  renumbered :
      (n : ℕ) (pre : List Attempt) (a b : Attempt) (post : List Attempt)
      → b.attempt_id ≡ a.attempt_id
      → IsNumbered n (pre ++ a ∷ post)
      → IsNumbered n (pre ++ b ∷ post)
  renumbered n [] a b post e (h, hs) = (e ∙ h, hs)
  renumbered n (c ∷ pre) a b post e (h, hs) = (h, renumbered (suc n) pre a b post e hs)

  module _ (caps : Table Decimal) (fallback : Decimal) where
    abbrev charge_of : Attempt → Decimal
    charge_of a = cap_of a.cohort_id fallback caps

    -- A STARTED attempt, failed at its cohort's cap; any other as it is.
    abbrev pub recovered : Attempt → Attempt
    recovered a =
        if is_started a.status
        then record a {
          status = failed;
          finished_at = some now;
          cost_usd = some (charge_of a);
          error = some "INTERRUPTED";
        }
        else a

    abbrev still_started : Attempt → Bool
    still_started a = is_started a.status

    module _ (charges : (id : String) → lt (cap_of id fallback caps) (dec 0 0) ≡ false) where
      -- What a recovery of the last attempts comes to.
      abbrev Recovers : List Attempt → List Attempt → Ledger → Type 0
      Recovers pre post l =
          let q = recover_all hashes caps fallback now (filter still_started post) l in
          (q.0 ≡ ok (map (λ (a : Attempt). a.attempt_id) (filter still_started post)))
          × (q.1.attempts ≡ pre ++ map recovered post)

      listed :
          (n : ℕ) (ids : List ℕ) (q : Result LedgerError (List ℕ) × Ledger)
          → q.0 ≡ ok ids
          → (lift q.0 >>= λ rest. pure (n ∷ rest)) q.1 ≡ (ok (n ∷ ids), q.1)
      listed n ids (r, w) e =
          ap (λ (x : Result LedgerError (List ℕ)). (lift x >>= λ rest. pure (n ∷ rest)) w) e

      -- The first attempt fails, and the rest is recovered.
      first_then_rest :
          (a : Attempt) (others : List Attempt) (ids : List ℕ) (l l1 : Ledger)
          → fail_attempt hashes a.attempt_id (charge_of a) "INTERRUPTED" now l ≡ (ok tt, l1)
          → (recover_all hashes caps fallback now others l1).0 ≡ ok ids
          → recover_all hashes caps fallback now (a ∷ others) l
            ≡ (ok (a.attempt_id ∷ ids), (recover_all hashes caps fallback now others l1).1)
      unfolding recover_all
      first_then_rest a others ids l l1 first done =
          ap
            (λ (q : Result LedgerError (Unit {0}) × Ledger).
              ((λ (_ : Ledger). q)
                  >> (recover_all hashes caps fallback now others >>= λ rest.
                      pure (a.attempt_id ∷ rest)))
                l)
            first
          ∙ listed a.attempt_id ids (recover_all hashes caps fallback now others l1) done

      recover_started :
          (pre : List Attempt) (a : Attempt) (post : List Attempt) (l : Ledger)
          → is_started a.status ≡ true
          → l.attempts ≡ pre ++ a ∷ post
          → IsNumbered 0 l.attempts
          → Recovers (pre ++ recovered a ∷ []) post (interrupted a.attempt_id (charge_of a) l)
          → Recovers pre (a ∷ post) l
      recover_started pre a post l begun split numbered (done, after) =
          let (_, found, _) =
            failed_there a.attempt_id now (charge_of a) "INTERRUPTED" 0 pre a post
              (subst (IsNumbered 0) split numbered) refl in
          let first =
            fail_attempt-interrupted a.attempt_id (charge_of a) l a (charges a.cohort_id)
              (subst (λ (as' : List Attempt). find_attempt a.attempt_id as' ≡ some a) (sym split)
                found)
              begun in
          let ids = map (λ (b : Attempt). b.attempt_id) (filter still_started post) in
          let whole = first_then_rest a (filter still_started post) ids l _ first done in
          rw begun (
            ap (λ (q : Result LedgerError (List ℕ) × Ledger). q.0) whole,
            ap (λ (q : Result LedgerError (List ℕ) × Ledger). q.1.attempts) whole
                ∙ after
                ∙ append_assoc pre (recovered a ∷ []) (map recovered post)
                ∙ rw begun refl,
          )

      failed_row :
          (a : Attempt)
          → is_started a.status ≡ true
          → fail_row a.attempt_id now (charge_of a) "INTERRUPTED" a ≡ recovered a
      failed_row a begun = rw begun (ground arith)

      one_more :
          (pre : List Attempt) (a b : Attempt) (post : List Attempt)
          → b ≡ a
          → pre ++ b ∷ post ≡ (pre ++ a ∷ []) ++ post
      one_more pre a b post e =
          ap (λ (x : Attempt). pre ++ x ∷ post) e ∙ sym (append_assoc pre (a ∷ []) post)

      recovers :
          (pre post : List Attempt) (l : Ledger)
          → l.attempts ≡ pre ++ post
          → IsNumbered 0 l.attempts
          → Recovers pre post l
      unfolding recover_all
      recovers pre [] l split numbered = (refl, split)
      recovers pre (a ∷ post) l split numbered = elim (Bool-cases (is_started a.status)) [
        | inr other ↦
            let same : a ≡ recovered a = rw other refl in
            let (done, after) =
              recovers (pre ++ a ∷ []) post l (split ∙ one_more pre a a post refl) numbered in
            rw other (done, after ∙ append_assoc pre (a ∷ []) (map recovered post))
        | inl begun ↦
            let id = a.attempt_id in
            let row = fail_row id now (charge_of a) "INTERRUPTED" in
            let numbered' = subst (IsNumbered 0) split numbered in
            let (_, _, mapped) =
              failed_there id now (charge_of a) "INTERRUPTED" 0 pre a post numbered' refl in
            let changed : map row l.attempts ≡ pre ++ recovered a ∷ post =
              ap (map row) split
              ∙ mapped
              ∙ ap (λ (x : Attempt). pre ++ x ∷ post) (failed_row a begun) in
            recover_started pre a post l begun split numbered (
              recovers (pre ++ recovered a ∷ []) post (interrupted id (charge_of a) l)
                (changed ∙ one_more pre (recovered a) (recovered a) post refl)
                (subst (IsNumbered 0) (sym changed)
                  (renumbered 0 pre a (recovered a) post (rw begun refl) numbered')))
      ]

      none_started : (as' : List Attempt) → count still_started (map recovered as') ≡ 0
      none_started [] = refl
      none_started (a ∷ as') = elim (Bool-cases (is_started a.status)) [
        | inl begun ↦ rw begun (none_started as')
        | inr other ↦ rw (other, other) (none_started as')
      ]

  -- Where the running cap is not negative and the row ids count up from one, the recovery returns, and
  -- with the ids of the attempts that were STARTED; each of these is FAILED and costs what its cohort
  -- is charged, every other attempt is as it was, and no attempt is STARTED any more.
  pub recover_interrupted_attempts_ends :
      (per_forecast : Decimal) (l : Ledger)
      → lt per_forecast (dec 0 0) ≡ false
      → IsNumbered 0 l.attempts
      → let caps = attempt_caps per_forecast l in
        let q = recover_interrupted_attempts hashes per_forecast now l in
        (q.0
          ≡ ok (
              map
                (λ (a : Attempt). a.attempt_id)
                (filter (λ (a : Attempt). is_started a.status) l.attempts)))
        × (q.1.attempts ≡ map (recovered caps (highest_of per_forecast caps)) l.attempts)
        × (count (λ (a : Attempt). is_started a.status) q.1.attempts ≡ 0)
  unfolding recover_interrupted_attempts
  recover_interrupted_attempts_ends per_forecast l h numbered =
      let caps = attempt_caps per_forecast l in
      let fallback = highest_of per_forecast caps in
      let (done, after) =
        recovers caps fallback (λ id. cap_of-not_negative per_forecast l id h) [] l.attempts l refl
          numbered in
      (
        done,
        after,
        ap (count (λ (a : Attempt). is_started a.status)) after
            ∙ none_started caps fallback (λ id. cap_of-not_negative per_forecast l id h) l.attempts,
      )
