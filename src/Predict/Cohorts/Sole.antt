-- ===== src/Predict/Cohorts/Sole.antt =====
-- The cohort that is active after `ensure_cohort`.
use japan_agent.Base.{
  ℕ, ◌≤◌, ◌≡◌, refl, subst, sym, ◌∙◌, ap, Bool, true, false, not, ◌||◌, Option, none, some, is_some,
  [], ◌∷◌, String, str_eq, str_eq_refl, Result, ok, err, any, count, count-append, Bool-cases,
  Option-cases, Result-cases, inl, inr, arith,
}
use japan_agent.Base.Sort.{sort}
use japan_agent.Base.Table.{Table, lookup, insert, lookup-insert}
use japan_agent.Base.Decimal.{Decimal, dec, le, eq}
use japan_agent.Base.Decimal.Order.{Le→le}
use japan_agent.Base.Decimal.Linear.{Le-refl}
use japan_agent.Base.Exec.{pure, gets, ◌>>=◌, ◌>>◌}
use japan_agent.Base.Exec.Inversion.{>>=-eq-ok, raise_if-eq-ok, outcome-eq}
use japan_agent.Time.{Instant}
use japan_agent.Predict.Ledger.{
  funding, Portfolio, Cohort, cohort_opened, Ledger, LedgerError, missing_artifact, Hashes,
  append_journal, append_journal-eq-ok, transaction-cases,
}
use japan_agent.Predict.Cash.{append_cash_entry}
use japan_agent.Predict.Cash.Entered.{append_cash_entry-eq-ok}
use japan_agent.Predict.Tickets.{is_active}
use japan_agent.Predict.Cohorts.{CohortIdentity, Ids, validate_identity, stores_artifacts}
use japan_agent.Predict.Cohorts.Ensure.{
  close_all, active_ids, is_active_row, new_cohort, insert_cohort, insert_portfolio, by_key,
  new_portfolio, same_slot, fund_all, open_cohort, keep_cohort, ensure_row, ensure_locked,
  ensure_cohort,
}

abbrev pub actives : Ledger → ℕ
actives l = count is_active_row l.cohorts

none_active : (rows : Table Cohort) → any is_active_row rows ≡ false → count is_active_row rows ≡ 0
none_active [] h = refl
none_active (row ∷ rows) h = ground (arith, none_active rows)

found_active :
    (id : String) (c : Cohort) (rows : Table Cohort)
    → lookup id rows ≡ some c
    → is_active c.status ≡ true
    → 1 ≤ count is_active_row rows
unfolding lookup
found_active id c [] h k = absurd (cc h)
found_active id c ((key, d) ∷ rows) h k = elim (Bool-cases (str_eq key id)) [
  | inl here ↦
      let same : d ≡ c = cc (rw (here, lookup) at h) in
      rw (subst (λ (x : Cohort). is_active x.status ≡ true) (sym same) k) (omega arith)
  | inr passed ↦
      let more = found_active id c rows (rw (passed, lookup) at h) k in ground (arith, more)
]

neither : (a b : Bool) → a || b ≡ false → (a ≡ false) × (b ≡ false)
neither a b h = ground arith

missing : {A : Type 0} (o : Option A) → is_some o ≡ false → o ≡ none
missing none h = refl
missing (some a) h = absurd cc

insert_cohort-eq-ok :
    (id : String) (c : Cohort) (l : Ledger) {u : Unit {0}} {l' : Ledger}
    → insert_cohort id c l ≡ (ok u, l')
    → (lookup id l.cohorts ≡ none)
      × (any is_active_row l.cohorts ≡ false)
      × (l' ≡ record l { cohorts = insert id c l.cohorts })
unfolding insert_cohort
insert_cohort-eq-ok id c l h =
    elim (Bool-cases (is_some (lookup id l.cohorts) || any is_active_row l.cohorts)) [
      | inl known ↦ absurd (cc (ap (λ r. r.0) (rw (known, insert_cohort) at h)))
      | inr new ↦
          let (absent, inactive) = neither _ _ new in
          (missing _ absent, inactive, sym (outcome-eq (rw (new, insert_cohort) at h)).1)
    ]

insert_portfolio-eq-ok :
    (id : String) (p : Portfolio) (l : Ledger) {u : Unit {0}} {l' : Ledger}
    → insert_portfolio id p l ≡ (ok u, l')
    → l'.cohorts ≡ l.cohorts
unfolding insert_portfolio
insert_portfolio-eq-ok id p l h =
    elim (Bool-cases
      (is_some (lookup id l.portfolios) || any (same_slot p.cohort_id p.variant) l.portfolios)) [
        | inl known ↦ absurd (cc (ap (λ r. r.0) (rw (known, insert_portfolio) at h)))
        | inr new ↦
            ap (λ (w : Ledger). w.cohorts) (sym (outcome-eq (rw (new, insert_portfolio) at h)).1)
      ]

same_amount : (x : Decimal) → eq x x ≡ true
unfolding eq
same_amount x = rw (Le→le x x (Le-refl x)) refl

module _ (hashes : Hashes) (ids : Ids) (bankroll : Decimal) (now : Instant) where
  fund_all-eq-ok :
      (cohort_id : String) (rows : Table String) (l : Ledger) {u : Unit {0}} {l' : Ledger}
      → fund_all hashes ids bankroll now cohort_id rows l ≡ (ok u, l')
      → l'.cohorts ≡ l.cohorts
  unfolding fund_all
  fund_all-eq-ok cohort_id [] l h = ap (λ (w : Ledger). w.cohorts) (sym (outcome-eq h).1)
  fund_all-eq-ok cohort_id ((variant, policy_hash) ∷ rest) l h =
      let id = ids.portfolio_id_for cohort_id variant in
      let p = new_portfolio hashes ids bankroll now cohort_id variant policy_hash in
      let enter = append_cash_entry hashes id funding bankroll none now in
      let (_, l1, opened, h1) =
        >>=-eq-ok (insert_portfolio id p)
          (λ _. enter >>= λ _. fund_all hashes ids bankroll now cohort_id rest) l h in
      let (_, l2, funded, h2) =
        >>=-eq-ok enter (λ _. fund_all hashes ids bankroll now cohort_id rest) l1 h1 in
      fund_all-eq-ok cohort_id rest l2 h2
      ∙ ap (λ (w : Ledger). w.cohorts)
          (append_cash_entry-eq-ok hashes id funding bankroll none now l1 funded).1
      ∙ insert_portfolio-eq-ok id p l opened

  -- The cohort is active with the bankroll, and no other is active.
  pub record IsEnsured (id : String) (rows : Table Cohort) : Type 0 where
    pub cohort : Cohort
    pub found : lookup id rows ≡ some cohort
    pub running : is_active cohort.status ≡ true
    pub same_bankroll : eq cohort.starting_bankroll bankroll ≡ true
    pub only_one : count is_active_row rows ≡ 1

  open_cohort-IsEnsured :
      (identity : CohortIdentity) (code_version id : String) (l : Ledger) {r : String} {l' : Ledger}
      → open_cohort hashes ids bankroll now identity code_version id l ≡ (ok r, l')
      → (r ≡ id) × IsEnsured id l'.cohorts
  unfolding open_cohort insert
  open_cohort-IsEnsured identity code_version id l {r} {l'} h =
      let c = new_cohort identity bankroll code_version now in
      let note =
        append_journal hashes (cohort_opened id (ids.identity_json identity) code_version bankroll)
          now in
      let fund = fund_all hashes ids bankroll now id (sort by_key identity.portfolios) in
      let finish = λ (_ : Unit {0}). note >> pure id in
      let (_, l1, closed, h1) =
        >>=-eq-ok (close_all hashes id now (active_ids l.cohorts))
          (λ _. insert_cohort id c >> (fund >>= finish)) l h in
      let (_, l2, inserted, h2) = >>=-eq-ok (insert_cohort id c) (λ _. fund >>= finish) l1 h1 in
      let (_, l3, funded, h3) = >>=-eq-ok fund finish l2 h2 in
      let (_, l4, noted, h4) = >>=-eq-ok note (λ _. pure id) l3 h3 in
      let (same, same_l) = outcome-eq h4 in
      let (absent, inactive, written) = insert_cohort-eq-ok id c l1 inserted in
      let rows : l'.cohorts ≡ insert id c l1.cohorts =
        ap (λ (w : Ledger). w.cohorts) (sym same_l ∙ append_journal-eq-ok hashes _ now l3 noted)
        ∙ fund_all-eq-ok id (sort by_key identity.portfolios) l2 funded
        ∙ ap (λ (w : Ledger). w.cohorts) written in
      (
        sym same,
        subst (IsEnsured id) (sym rows) (record {
          cohort = c;
          found = lookup-insert id id c l1.cohorts absent ∙ (rw (str_eq_refl id) refl);
          running = refl;
          same_bankroll = same_amount bankroll;
          only_one =
              count-append is_active_row l1.cohorts ((id, c) ∷ [])
              ∙ (rw (none_active l1.cohorts inactive) refl);
        }),
      )

  keep_cohort-IsEnsured :
      (id : String) (c : Cohort) (l : Ledger) {r : String} {l' : Ledger}
      → lookup id l.cohorts ≡ some c
      → actives l ≤ 1
      → keep_cohort hashes ids bankroll now id c l ≡ (ok r, l')
      → (r ≡ id) × IsEnsured id l'.cohorts
  unfolding keep_cohort
  keep_cohort-IsEnsured id c l found most h = elim (Bool-cases (is_active c.status)) [
    | inr closed ↦ absurd (cc (ap (λ r. r.0) (rw (closed, keep_cohort) at h)))
    | inl running ↦ elim (Bool-cases (eq c.starting_bankroll bankroll)) [
      | inr other ↦ absurd (cc (ap (λ r. r.0) (rw (running, other, keep_cohort) at h)))
      | inl same ↦
          let (same_id, same_l) = outcome-eq (rw (running, same, keep_cohort) at h) in
          (
            sym same_id,
            subst (λ (w : Ledger). IsEnsured id w.cohorts) same_l
                (record {
                  cohort = c;
                  found = found;
                  running = running;
                  same_bankroll = same;
                  only_one = omega (arith, most, found_active id c l.cohorts found running);
                }),
          )
    ]
  ]

  ensure_row-IsEnsured :
      (identity : CohortIdentity) (code_version id : String) (l : Ledger) {r : String} {l' : Ledger}
      → actives l ≤ 1
      → ensure_row hashes ids bankroll now identity code_version id (lookup id l.cohorts) l
        ≡ (ok r, l')
      → (r ≡ id) × IsEnsured id l'.cohorts
  unfolding ensure_row
  ensure_row-IsEnsured identity code_version id l most h =
      elim (Option-cases (lookup id l.cohorts)) [
        | inl absent ↦
            open_cohort-IsEnsured identity code_version id l (rw (absent, ensure_row) at h)
        | inr (c, found) ↦ keep_cohort-IsEnsured id c l found most (rw (found, ensure_row) at h)
      ]

  ensure_locked-IsEnsured :
      (identity : CohortIdentity) (code_version : String) (l : Ledger) {r : String} {l' : Ledger}
      → actives l ≤ 1
      → ensure_locked hashes ids bankroll now identity code_version l ≡ (ok r, l')
      → (r ≡ ids.cohort_id_for identity) × IsEnsured r l'.cohorts
  unfolding ensure_locked
  ensure_locked-IsEnsured identity code_version l {r} {l'} most h =
      let id = ids.cohort_id_for identity in
      let (_, run) =
        raise_if-eq-ok (not (stores_artifacts identity l)) missing_artifact
          (λ _.
            gets (λ (w : Ledger). lookup id w.cohorts)
            >>= ensure_row hashes ids bankroll now identity code_version id)
          l h in
      let (same, ensured) = ensure_row-IsEnsured identity code_version id l most run in
      (same, subst (λ (x : String). IsEnsured x l'.cohorts) (sym same) ensured)

  -- How `ensure_cohort` ends.
  abbrev pub Ensuring : CohortIdentity → Ledger → Result LedgerError String × Ledger → Type 0
  Ensuring identity l (err e, l') = l' ≡ l
  Ensuring identity l (ok id, l') = (id ≡ ids.cohort_id_for identity) × IsEnsured id l'.cohorts

  -- Where at most one cohort is active, `ensure_cohort` either raises and leaves the ledger as it was,
  -- or it returns the id of the identity, whose cohort is then active with the same bankroll, and is
  -- the only active one.
  pub ensure_cohort-Ensuring :
      (identity : CohortIdentity) (code_version : String) (l : Ledger)
      → actives l ≤ 1
      → Ensuring identity l (ensure_cohort hashes ids bankroll now identity code_version l)
  unfolding ensure_cohort
  ensure_cohort-Ensuring identity code_version l most = elim (Bool-cases (le bankroll (dec 0 0))) [
    | inl bad ↦ rw (bad, ensure_cohort) refl
    | inr good ↦ elim (Result-cases (validate_identity identity)) [
      | inr (e, invalid) ↦ rw (good, invalid, ensure_cohort) refl
      | inl (_, valid) ↦
          rw (good, valid, ensure_cohort)
            (elim (transaction-cases (ensure_locked hashes ids bankroll now identity code_version)
              l) [
                | inl (e, rolled) ↦ subst (Ensuring identity l) (sym rolled) refl
                | inr (id, l', run, committed) ↦
                    subst (Ensuring identity l) (sym committed)
                      (ensure_locked-IsEnsured identity code_version l most run)
              ])
    ]
  ]
