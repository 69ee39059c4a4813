-- ===== src/Predict/Cohorts/Ensure.antt =====
-- predict_agent/cohorts.py: `ensure_cohort`.
use japan_agent.Base.{
  Bool, not, ◌&&◌, ◌||◌, Option, none, some, is_some, List, [], ◌∷◌, String, str_eq, ok, err,
  if◌then◌else◌, any,
}
use japan_agent.Base.Text.{text_before}
use japan_agent.Base.Sort.{sort}
use japan_agent.Base.Table.{Table, lookup, insert, update}
use japan_agent.Base.Decimal.{Decimal, dec, le, eq}
use japan_agent.Base.Exec.{Exec, pure, raise, lift, gets, modify, ◌>>=◌, ◌>>◌, raise_if}
use japan_agent.Time.{Instant}
use japan_agent.Predict.Ledger.{
  funding, Portfolio, Cohort, active, closed, cohort_closed, cohort_opened, Ledger, LedgerError,
  integrity_error, missing_artifact, bad_bankroll, other_bankroll, closed_cohort, Hashes,
  append_journal, transaction,
}
use japan_agent.Predict.Cash.{append_cash_entry}
use japan_agent.Predict.Tickets.{is_active}
use japan_agent.Predict.Cohorts.{CohortIdentity, Ids, validate_identity, stores_artifacts}

abbrev pub close_row : Instant → Cohort → Cohort
close_row now c = record c { status = closed; closed_at = some now }

-- `SELECT cohort_id FROM cohorts WHERE status = 'ACTIVE'`
unfoldable pub active_ids : Table Cohort → List String
active_ids [] = []
active_ids ((id, c) ∷ rows) =
    let rest = active_ids rows in if is_active c.status then id ∷ rest else rest

abbrev pub close_cohort : Instant → String → Ledger → Ledger
close_cohort now id l = record l { cohorts = update id (close_row now) l.cohorts }

-- The loop that closes cohorts.
unfoldable pub close_all :
    Hashes → String → Instant → List String → Exec Ledger LedgerError (Unit {0})
unfolding update
close_all hashes id now [] = pure tt
close_all hashes id now (old ∷ rest) =
    modify (close_cohort now old)
    >> (append_journal hashes (cohort_closed old id) now >> close_all hashes id now rest)

abbrev pub is_active_row : String × Cohort → Bool
is_active_row row = is_active row.1.status

abbrev pub new_cohort : CohortIdentity → Decimal → String → Instant → Cohort
new_cohort identity bankroll code_version now = record {
  status = active;
  starting_bankroll = bankroll;
  baseline_window_seconds = identity.baseline_window_seconds;
  frozen_cap = identity.frozen_cap;
  code_version = code_version;
  started_at = now;
  closed_at = none;
}

-- INSERT INTO cohorts, of which one at most is active.
unfoldable pub insert_cohort : String → Cohort → Exec Ledger LedgerError (Unit {0})
unfolding lookup insert
insert_cohort id c l =
    if is_some (lookup id l.cohorts) || any is_active_row l.cohorts
    then (err integrity_error, l)
    else (ok tt, record l { cohorts = insert id c l.cohorts })

abbrev pub same_slot : String → String → String × Portfolio → Bool
same_slot cohort_id variant row = str_eq row.1.cohort_id cohort_id && str_eq row.1.variant variant

-- INSERT INTO portfolios, whose keys are the id, and the cohort with the variant.
unfoldable pub insert_portfolio : String → Portfolio → Exec Ledger LedgerError (Unit {0})
unfolding lookup insert
insert_portfolio id p l =
    if is_some (lookup id l.portfolios) || any (same_slot p.cohort_id p.variant) l.portfolios
    then (err integrity_error, l)
    else (ok tt, record l { portfolios = insert id p l.portfolios })

abbrev pub by_key : String × String → String × String → Bool
by_key a b = text_before a.0 b.0

module _ (hashes : Hashes) (ids : Ids) (bankroll : Decimal) (now : Instant) where
  abbrev pub new_portfolio : String → String → String → Portfolio
  new_portfolio cohort_id variant policy_hash = record {
    cohort_id = cohort_id;
    variant = variant;
    policy_hash = policy_hash;
    starting_bankroll = bankroll;
  }

  -- The loop that opens the portfolios, each with its funding.
  unfoldable pub fund_all : String → Table String → Exec Ledger LedgerError (Unit {0})
  unfolding insert_portfolio
  fund_all cohort_id [] = pure tt
  fund_all cohort_id ((variant, policy_hash) ∷ rest) = do
    let id = ids.portfolio_id_for cohort_id variant
    insert_portfolio id (new_portfolio cohort_id variant policy_hash)
    _ ← append_cash_entry hashes id funding bankroll none now
    fund_all cohort_id rest

  -- The writes for a cohort that does not exist.
  unfoldable pub open_cohort : CohortIdentity → String → String → Exec Ledger LedgerError String
  unfolding close_all active_ids insert_cohort fund_all
  open_cohort identity code_version id = do
    old ← gets (λ (l : Ledger). active_ids l.cohorts)
    close_all hashes id now old
    insert_cohort id (new_cohort identity bankroll code_version now)
    fund_all id (sort by_key identity.portfolios)
    append_journal hashes (cohort_opened id (ids.identity_json identity) code_version bankroll) now
    pure id

  -- An existing cohort is kept if it is active and has the same bankroll.
  unfoldable pub keep_cohort : String → Cohort → Exec Ledger LedgerError String
  keep_cohort id c =
      if not (is_active c.status)
      then raise closed_cohort
      else if not (eq c.starting_bankroll bankroll)
      then raise other_bankroll
      else pure id

  unfoldable pub ensure_row :
      CohortIdentity → String → String → Option Cohort → Exec Ledger LedgerError String
  unfolding open_cohort keep_cohort
  ensure_row identity code_version id none = open_cohort identity code_version id
  ensure_row identity code_version id (some c) = keep_cohort id c

  unfoldable pub ensure_locked : CohortIdentity → String → Exec Ledger LedgerError String
  unfolding ensure_row stores_artifacts lookup
  ensure_locked identity code_version = do
    stored ← gets (stores_artifacts identity)
    raise_if (not stored) missing_artifact
    let id = ids.cohort_id_for identity
    found ← gets (λ (l : Ledger). lookup id l.cohorts)
    ensure_row identity code_version id found

  unfoldable pub ensure_cohort : CohortIdentity → String → Exec Ledger LedgerError String
  unfolding ensure_locked validate_identity
  ensure_cohort identity code_version = do
    raise_if (le bankroll (dec 0 0)) bad_bankroll
    _ ← lift (validate_identity identity)
    transaction (ensure_locked identity code_version)
