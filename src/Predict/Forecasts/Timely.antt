-- ===== src/Predict/Forecasts/Timely.antt =====
-- A baseline is attached only with books of the forecast's own window.
use japan_agent.Base.{
  ℕ, ◌≤◌, ◌≡◌, refl, subst, sym, ap, true, false, not, Option, none, some, is_some, [], ◌∷◌, ◌++◌,
  str_eq, str_eq_iff, Result, ok, err, >>=-eq-ok, guard-eq-ok, not-true, ltb, ltb→le, Option-cases,
  inl, inr,
}
use japan_agent.Base.Exec.Inversion.{>>=-eq-ok as run-eq-ok}
use japan_agent.Base.Exec.Inversion.{lift-eq-ok, outcome-eq}
use japan_agent.Time.{Instant}
use japan_agent.Predict.Outcome.{Outcome, yes, no, half, unknown, same_outcome}
use japan_agent.Predict.Ledger.{
  Forecast, snapshots, Baseline, Snapshot, baseline_attached, Ledger, LedgerError, Hashes,
  append_journal, append_journal-eq-ok, transaction-cases,
}
use japan_agent.Predict.Tickets.{find_baseline, refuse_if}
use japan_agent.Predict.Forecasts.Resume.{forecast_row, baseline_deadline}
use japan_agent.Predict.Forecasts.Baseline.{
  find_snapshot, check_snapshot, check_baseline, baseline_at,
}
use japan_agent.Predict.Forecasts.Attach.{
  insert_baseline, write_baseline, attach_locked, attach_baseline,
}

-- A snapshot of the forecast's market and of a side, fetched no earlier than the forecast was made
-- and no later than its window's end.
pub record IsTimely (row : Forecast × ℕ) (side : Outcome) (s : Snapshot) : Type 0 where
  pub same_market : s.condition_id ≡ row.0.values.condition_id
  pub same_side : s.outcome ≡ side
  pub not_before : row.0.created_at ≤ s.fetched_at
  pub not_after : s.fetched_at ≤ baseline_deadline row

same_outcome-eq : (a b : Outcome) → same_outcome a b ≡ true → a ≡ b
same_outcome-eq yes yes h = refl
same_outcome-eq no no h = refl
same_outcome-eq half half h = refl
same_outcome-eq unknown unknown h = refl
same_outcome-eq yes no h = absurd (cc h)
same_outcome-eq yes half h = absurd (cc h)
same_outcome-eq yes unknown h = absurd (cc h)
same_outcome-eq no yes h = absurd (cc h)
same_outcome-eq no half h = absurd (cc h)
same_outcome-eq no unknown h = absurd (cc h)
same_outcome-eq half yes h = absurd (cc h)
same_outcome-eq half no h = absurd (cc h)
same_outcome-eq half unknown h = absurd (cc h)
same_outcome-eq unknown yes h = absurd (cc h)
same_outcome-eq unknown no h = absurd (cc h)
same_outcome-eq unknown half h = absurd (cc h)

check_snapshot-IsTimely :
    (row : Forecast × ℕ) (side : Outcome) (o : Option Snapshot) {u : Unit {0}}
    → check_snapshot row side o ≡ ok u
    → (s : Snapshot) × (o ≡ some s) × IsTimely row side s
unfolding check_snapshot
check_snapshot-IsTimely row side none h = absurd (cc h)
check_snapshot-IsTimely row side (some s) h =
    let (market, h1) = guard-eq-ok (not (str_eq s.condition_id row.0.values.condition_id)) _ _ h in
    let (sided, h2) = guard-eq-ok (not (same_outcome s.outcome side)) _ _ h1 in
    let (late, h3) = guard-eq-ok (ltb s.fetched_at row.0.created_at) _ _ h2 in
    let (early, _) = guard-eq-ok (ltb (baseline_deadline row) s.fetched_at) _ _ h3 in
    (
      s,
      refl,
      record {
        same_market = (str_eq_iff _ _).0 (not-true _ market);
        same_side = same_outcome-eq s.outcome side (not-true _ sided);
        not_before = ltb→le s.fetched_at row.0.created_at late;
        not_after = ltb→le (baseline_deadline row) s.fetched_at early;
      },
    )

not_some : {A : Type 0} (o : Option A) → is_some o ≡ false → o ≡ none
not_some none h = refl
not_some (some a) h = absurd (cc h)

pub record IsAttached (hashes : Hashes) (id yes_id no_id : ℕ) (now : Instant) (l l' : Ledger)
    : Type 0 where
  pub row : Forecast × ℕ
  pub on_yes : Snapshot
  pub on_no : Snapshot
  pub forecasted : forecast_row id l ≡ ok row
  pub first : find_baseline id l.baselines ≡ none
  pub found_yes : find_snapshot yes_id l.snapshots ≡ some on_yes
  pub found_no : find_snapshot no_id l.snapshots ≡ some on_no
  pub timely_yes : IsTimely row yes on_yes
  pub timely_no : IsTimely row no on_no
  pub written : l' ≡ record l {
    baselines = l.baselines ++ baseline_at id (snapshots yes_id no_id) now ∷ [];
    journal = l'.journal;
  }

insert_baseline-eq-ok :
    (b : Baseline) (l : Ledger) {u : Unit {0}} {l' : Ledger}
    → insert_baseline b l ≡ (ok u, l')
    → l' ≡ record l { baselines = l.baselines ++ b ∷ [] }
unfolding insert_baseline
insert_baseline-eq-ok b l h = elim (Option-cases (find_baseline b.forecast_id l.baselines)) [
  | inr (old, known) ↦ absurd (cc (ap (λ r. r.0) (rw (known, insert_baseline) at h)))
  | inl first ↦ sym (outcome-eq (rw (first, insert_baseline) at h)).1
]

module _ (hashes : Hashes) (id yes_id no_id : ℕ) (now : Instant) where
  attach_locked-IsAttached :
      (l : Ledger) {u : Unit {0}} {l' : Ledger}
      → attach_locked hashes id yes_id no_id now l ≡ (ok u, l')
      → IsAttached hashes id yes_id no_id now l l'
  unfolding attach_locked write_baseline check_baseline
  attach_locked-IsAttached l {u} {l'} h =
      let (_, checked, h1) =
        lift-eq-ok (check_baseline id yes_id no_id l)
          (λ _. write_baseline hashes id yes_id no_id now) l h in
      let b = baseline_at id (snapshots yes_id no_id) now in
      let (_, l1, inserted, h2) =
        run-eq-ok (insert_baseline b)
          (λ _. append_journal hashes (baseline_attached id yes_id no_id) now) l h1 in
      let (row, forecasted, c1) = >>=-eq-ok (forecast_row id l) _ checked in
      let (_, first, c2) = >>=-eq-ok (refuse_if (is_some (find_baseline id l.baselines)) _) _ c1 in
      let (_, on_yes, on_no) =
        >>=-eq-ok (check_snapshot row yes (find_snapshot yes_id l.snapshots)) _ c2 in
      let (s, found_yes, timely_yes) = check_snapshot-IsTimely row yes _ on_yes in
      let (t, found_no, timely_no) = check_snapshot-IsTimely row no _ on_no in
      record {
        row = row;
        on_yes = s;
        on_no = t;
        forecasted = forecasted;
        first = not_some _ (guard-eq-ok _ _ _ first).0;
        found_yes = found_yes;
        found_no = found_no;
        timely_yes = timely_yes;
        timely_no = timely_no;
        written =
            subst (λ (w : Ledger). l' ≡ record w { journal = l'.journal })
              (insert_baseline-eq-ok b l inserted)
              (append_journal-eq-ok hashes (baseline_attached id yes_id no_id) now l1 h2);
      }

  -- How attaching a baseline ends.
  abbrev pub Attaching : Ledger → Result LedgerError (Unit {0}) × Ledger → Type 0
  Attaching l (err e, l') = l' ≡ l
  Attaching l (ok _, l') = IsAttached hashes id yes_id no_id now l l'

  -- Attaching a baseline either raises and leaves the ledger as it was, or the forecast had none, the
  -- two snapshots are of its market, one of YES and one of NO, both fetched no earlier than the
  -- forecast was made and no later than its window's end, and the baseline is all that is written
  -- besides the journal.
  pub attach_baseline-Attaching :
      (l : Ledger) → Attaching l (attach_baseline hashes id yes_id no_id now l)
  unfolding attach_baseline
  attach_baseline-Attaching l =
      elim (transaction-cases (attach_locked hashes id yes_id no_id now) l) [
        | inl (e, rolled) ↦ subst (Attaching l) (sym rolled) refl
        | inr (u, l', run, committed) ↦
            subst (Attaching l) (sym committed) (attach_locked-IsAttached l run)
      ]
