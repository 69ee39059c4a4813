-- ===== src/Predict/Ledger.antt =====
-- The database of the paper ledger, and the journal of predict_agent/db.py. The hashes are
-- parameters.
mod Rows
pub use Rows.*
use japan_agent.Base.{
  ℕ, ◌≡◌, refl, ◌⊎◌, inl, inr, Result, sym, ◌∙◌, ap, Option, List, [], ◌∷◌, ◌++◌, String, ok, err,
}
use japan_agent.Base.Decimal.{Decimal}
use japan_agent.Base.Table.{Table}
use japan_agent.Base.Exec.{Exec}
use japan_agent.Base.Exec.Inversion.{outcome-eq}
use japan_agent.Time.{Instant}
use japan_agent.Predict.Outcome.{Outcome}
use japan_agent.Predict.Observation.{Observation}

-- The payloads of the journal's entries, each for its kind.
pub data JournalPayload : Type 0 where
  cash_entry : EntryType → String → Decimal → Option ℕ → String → JournalPayload
  ticket_settled : ℕ → ℕ → Outcome → Decimal → Decimal → JournalPayload
  ticket_opened : ℕ → String → String → Outcome → Decimal → String → JournalPayload
  decision_refused : String → ℕ → String → JournalPayload
  attempt_started : ℕ → String → String → JournalPayload
  attempt_failed : ℕ → Decimal → String → JournalPayload
  forecast_recorded : ℕ → ℕ → String → String → ForecastKind → String → JournalPayload
  baseline_attached : ℕ → ℕ → ℕ → JournalPayload
  baseline_missed : ℕ → JournalPayload
  cohort_closed : String → String → JournalPayload
  cohort_opened : String → String → String → Decimal → JournalPayload

pub record JournalCore : Type 0 where
  pub at : Instant
  pub payload : JournalPayload
  pub prev_hash : String

pub record JournalEntry : Type 0 where
  pub core : JournalCore
  pub entry_hash : String

-- The tables, the rows of each in the order of insertion.
pub record Ledger : Type 0 where
  pub artifacts : Table Artifact
  pub cohorts : Table Cohort
  pub portfolios : Table Portfolio
  pub markets : Table Market
  pub rules : List RulesVersion
  pub runs : List Run
  pub discoveries : List Discovery
  pub snapshots : List Snapshot
  pub observations : Table Observation
  pub attempts : List Attempt
  pub forecasts : List Forecast
  pub baselines : List Baseline
  pub tickets : List PaperTicket
  pub decisions : List Decision
  pub settlements : List Settlement
  pub cash : List CashEntry
  pub journal : List JournalEntry

pub data LedgerError : Type 0 where
  invalid_amount unknown_portfolio funding_with_ticket already_funded wrong_funding : LedgerError
  needs_ticket unknown_ticket other_portfolio repeated_entry wrong_debit no_settlement : LedgerError
  wrong_credit insufficient_cash integrity_error no_payout : LedgerError
  bad_outcome no_fills invalid_fee bad_fill_price bad_fill_shares inactive_cohort : LedgerError
  other_policy other_forecast other_rules already_decided other_snapshot : LedgerError
  no_reason needs_baseline bad_cost no_error not_started : LedgerError
  bad_digest bad_abstention bad_probability bad_confidence bad_base_rate bad_body : LedgerError
  other_attempt early_forecast unknown_rules missing_artifact repeated_forecast : LedgerError
  unknown_forecast repeated_baseline unknown_snapshot other_market other_side : LedgerError
  too_early too_late still_open : LedgerError
  insert_refused not_an_amount not_a_finite_amount : LedgerError
  missing_snapshot unknown_market lost_artifact changed_artifact : LedgerError
  not_a_policy unreadable_policy policy_failed bad_bankroll no_primary bad_variant : LedgerError
  no_model bad_window bad_generation other_bankroll closed_cohort : LedgerError

pub record Hashes : Type 0 where
  pub cash : CashCore → String
  pub journal : JournalCore → String
  pub ticket : TicketCore → String
  pub forecast : ForecastRecord → Instant → String
  pub text : String → String

-- "0" * 64
abbrev pub genesis_hash : String
genesis_hash = "0000000000000000000000000000000000000000000000000000000000000000"

unfoldable pub last_journal : String → List JournalEntry → String
last_journal previous [] = previous
last_journal previous (e ∷ es) = last_journal e.entry_hash es

-- `append_journal`; the kind is part of the payload. The unique key of `entry_hash` is left out: an
-- entry violates it only by a collision of the hash with an earlier one.
unfoldable pub append_journal :
    Hashes → JournalPayload → Instant → Exec Ledger LedgerError (Unit {0})
unfolding last_journal
append_journal hashes payload at l =
    let core : JournalCore = record {
      at = at;
      payload = payload;
      prev_hash = last_journal genesis_hash l.journal;
    } in
    let e : JournalEntry = record { core = core; entry_hash = hashes.journal core } in
    (ok tt, record l { journal = l.journal ++ e ∷ [] })

-- An entry of the journal changes nothing else.
pub append_journal-eq-ok :
    (hashes : Hashes) (payload : JournalPayload) (at : Instant) (l : Ledger) {u : Unit {0}}
    {l' : Ledger}
    → append_journal hashes payload at l ≡ (ok u, l')
    → l' ≡ record l { journal = l'.journal }
unfolding append_journal
append_journal-eq-ok hashes payload at l {u} {l'} h =
    let same = (outcome-eq h).1 in
    sym same ∙ ap (λ (w : Ledger). record l { journal = w.journal }) same

-- `with transaction(conn)`: an exception rolls everything back.
unfoldable pub transaction : {A : Type 0} → Exec Ledger LedgerError A → Exec Ledger LedgerError A
transaction m l = let (r, l') = m l in elim r [ ok a ↦ (ok a, l') | err e ↦ (err e, l) ]

abbrev committed :
    {A : Type 0} → Ledger → Result LedgerError A × Ledger → Result LedgerError A × Ledger
committed l q = elim q.0 [ ok a ↦ (ok a, q.1) | err e ↦ (err e, l) ]

-- What a transaction comes to: nothing but an error, or what its run came to.
abbrev Commits :
    {A : Type 0} → Ledger → Result LedgerError A × Ledger → Result LedgerError A × Ledger → Type 0
Commits {A} l run result =
    ((e : LedgerError) × (result ≡ (err e, l)))
    ⊎ ((a : A) × (l' : Ledger) × (run ≡ (ok a, l')) × (result ≡ (ok a, l')))

committed-Commits :
    {A : Type 0} (l : Ledger) (q : Result LedgerError A × Ledger) → Commits l q (committed l q)
committed-Commits l (ok a, l') = inr (a, l', refl, refl)
committed-Commits l (err e, l') = inl (e, refl)

-- A transaction that raises leaves the ledger as it was; one that returns commits its run.
pub transaction-cases :
    {A : Type 0} (m : Exec Ledger LedgerError A) (l : Ledger)
    → ((e : LedgerError) × (transaction m l ≡ (err e, l)))
      ⊎ ((a : A) × (l' : Ledger) × (m l ≡ (ok a, l')) × (transaction m l ≡ (ok a, l')))
unfolding transaction
transaction-cases m l = committed-Commits l (m l)
