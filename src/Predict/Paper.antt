-- ===== src/Predict/Paper.antt =====
-- predict_agent/paper.py: the inputs of the policy, read from the ledger.
pub mod Decide
pub mod Decided
pub mod Trade
pub mod Single
use japan_agent.Base.{
  ℕ, Bool, true, false, not, ◌&&◌, ◌||◌, Option, none, some, is_some, List, [], ◌∷◌, String, str_eq,
  Result, ok, err, ◌>>=◌, map_err, if◌then◌else◌, any, map,
}
use japan_agent.Base.Table.{Table, lookup}
use japan_agent.Base.Decimal.{Decimal, dec, add}
use japan_agent.Time.{Instant}
use japan_agent.Storage.Iso.{iso_le}
use japan_agent.Predict.Outcome.{Outcome, yes, no}
use japan_agent.Predict.Observation.{Observation}
use japan_agent.Predict.Params.{PolicyParams}
use japan_agent.Predict.Params.Parse.{policy_from_artifact}
use japan_agent.Predict.Policy.{SideBook, ForecastView, Exposure, PolicyInputs}
use japan_agent.Predict.Ledger.{
  Run, RunStatus, completed, Discovery, Snapshot, RulesVersion, Market, BaselineSides, snapshots,
  no_baseline, Baseline, Forecast, PaperTicket, Artifact, ArtifactKind, policy, Ledger, LedgerError,
  unknown_forecast, unknown_market, missing_snapshot, lost_artifact, changed_artifact, not_a_policy,
  unreadable_policy, Hashes,
}
use japan_agent.Predict.Cash.{available_cash, is_open}
use japan_agent.Predict.Settlement.{observations_of}
use japan_agent.Predict.Tickets.{find_forecast, find_baseline, holds}
use japan_agent.Predict.Tickets.Refuse.{equity}
use japan_agent.Predict.Forecasts.Baseline.{find_snapshot}
use japan_agent.Predict.Forecasts.Record.{is_version, same_artifact_kind}

abbrev pub is_completed : RunStatus → Bool
is_completed completed = true
is_completed _ = false

-- A completed run of a discovery.
abbrev pub discovers : Run → Bool
discovers r = (str_eq r.command "discover" || str_eq r.command "run-data") && is_completed r.status

-- The latest by the text of its start, and of those by its row.
abbrev later : Option Run → Run → Run
later none r = r
later (some best) r = if iso_le best.started_at r.started_at then r else best

-- ORDER BY started_at DESC, rowid DESC LIMIT 1, from the best so far
unfoldable pub latest_from : Option Run → List Run → Option Run
latest_from best [] = best
latest_from best (r ∷ rs) = latest_from (if discovers r then some (later best r) else best) rs

unfoldable pub latest_discovery_run : List Run → Option String
unfolding latest_from
latest_discovery_run rows = elim (latest_from none rows) [ none ↦ none | some r ↦ some r.run_id ]

-- `_side_book`
unfoldable pub side_book : ℕ → Outcome → Ledger → Result LedgerError SideBook
unfolding find_snapshot
side_book id side l = elim (find_snapshot id l.snapshots) [
  | none ↦ err missing_snapshot
  | some s ↦ ok (record {
    outcome = side;
    snapshot_id = id;
    fetched_at = s.fetched_at;
    asks = s.asks;
    tick_size = s.tick_size;
    min_order_size = s.min_order_size;
    fees_enabled = s.fees_enabled;
    fee_schedule = s.fee_schedule;
  })
]

abbrev added : Bool → Decimal → Decimal → Decimal
added b total cost = if b then add total cost else total

-- The exposure with the cost of one ticket more, on a market.
unfoldable pub exposed : String → String → String → String → Market → Decimal → Exposure → Exposure
exposed condition_id event_id category id m cost e = record {
  market = added (str_eq id condition_id) e.market cost;
  event = added (str_eq m.event_id event_id) e.event cost;
  category = added (str_eq m.category category) e.category cost;
  total = add e.total cost;
}

-- A ticket whose market has no row is left out by the join.
unfoldable pub joined : String → String → String → PaperTicket → Option Market → Exposure → Exposure
unfolding exposed
joined condition_id event_id category t none e = e
joined condition_id event_id category t (some m) e =
    exposed condition_id event_id category t.core.condition_id m t.core.cost_total e

-- The loop of `_exposure`
unfoldable pub exposure_from :
    String → String → String → String → Table Market → Exposure → List PaperTicket → Exposure
unfolding joined
exposure_from portfolio_id condition_id event_id category markets e [] = e
exposure_from portfolio_id condition_id event_id category markets e (t ∷ ts) =
    let more = joined condition_id event_id category t (lookup t.core.condition_id markets) e in
    let mine = str_eq t.core.portfolio_id portfolio_id && is_open t.status in
    exposure_from portfolio_id condition_id event_id category markets (if mine then more else e) ts

abbrev pub no_exposure : Exposure
no_exposure = record { market = dec 0 0; event = dec 0 0; category = dec 0 0; total = dec 0 0 }

-- The books of a baseline that has both.
unfoldable pub books_of : Option Baseline → Ledger → Result LedgerError (List (Outcome × SideBook))
unfolding side_book
books_of none l = ok []
books_of (some b) l = elim b.sides [
  | no_baseline _ ↦ ok []
  | snapshots yes_id no_id ↦ side_book yes_id yes l >>= λ on_yes.
      side_book no_id no l >>= λ on_no. ok ((yes, on_yes) ∷ (no, on_no) ∷ [])
]

-- The end date of a rules version, if both are known.
unfoldable pub end_date_of : String → String → List RulesVersion → Option Instant
end_date_of condition_id rules_hash [] = none
end_date_of condition_id rules_hash (v ∷ vs) =
    if is_version condition_id rules_hash v
    then v.end_date
    else end_date_of condition_id rules_hash vs

abbrev pub lists : String → String → Discovery → Bool
lists run_id condition_id d = str_eq d.run_id run_id && str_eq d.condition_id condition_id

-- The market is in the latest completed discovery.
unfoldable pub is_eligible : String → Ledger → Bool
unfolding latest_discovery_run
is_eligible condition_id l = elim (latest_discovery_run l.runs) [
  | none ↦ false
  | some run_id ↦ any (lists run_id condition_id) l.discoveries
]

-- `status not in OPEN_STATUSES`
abbrev pub is_started_resolution : Observation → Bool
is_started_resolution o =
    not (str_eq o.status "initialized" || (str_eq o.status "posed" || str_eq o.status "active"))

unfoldable pub view_of : Forecast → Ledger → ForecastView
unfolding end_date_of
view_of f l = record {
  abstained = f.values.abstained;
  p_low = f.values.p_low;
  p_mid = f.values.p_mid;
  p_high = f.values.p_high;
  confidence = f.values.confidence;
  rules_hash = f.values.rules_hash;
  end_date = end_date_of f.values.condition_id f.values.rules_hash l.rules;
}

-- What `load_inputs` builds of the rows that it found.
unfoldable pub inputs_of :
    String → Forecast → Market → List (Outcome × SideBook) → Instant → Ledger → PolicyInputs
unfolding is_eligible view_of observations_of exposure_from
inputs_of portfolio_id f m books now l =
    let condition_id = f.values.condition_id in
    record {
      forecast = view_of f l;
      current_rules_hash = m.current_rules_hash;
      eligible = is_eligible condition_id l;
      resolution_started = any is_started_resolution (observations_of condition_id l.observations);
      already_traded = any (holds portfolio_id condition_id) l.tickets;
      books = books;
      equity = equity portfolio_id l;
      available_cash = available_cash portfolio_id l.cash;
      exposure =
          exposure_from portfolio_id condition_id m.event_id m.category l.markets no_exposure
            l.tickets;
      now = now;
    }

unfoldable pub load_inputs : String → ℕ → Instant → Ledger → Result LedgerError PolicyInputs
unfolding find_forecast find_baseline books_of inputs_of
load_inputs portfolio_id id now l = elim (find_forecast id l.forecasts) [
  | none ↦ err unknown_forecast
  | some f ↦ elim (lookup f.values.condition_id l.markets) [
    | none ↦ err unknown_market
    | some m ↦ books_of (find_baseline id l.baselines) l >>= λ books.
        ok (inputs_of portfolio_id f m books now l)
  ]
]

-- `load_artifact`
unfoldable pub load_artifact : Hashes → String → Ledger → Result LedgerError Artifact
load_artifact hashes digest l = elim (lookup digest l.artifacts) [
  | none ↦ err lost_artifact
  | some a ↦ if not (str_eq (hashes.text a.content) digest) then err changed_artifact else ok a
]

-- `_policy`
unfoldable pub policy_at : Hashes → String → Ledger → Result LedgerError PolicyParams
unfolding load_artifact policy_from_artifact
policy_at hashes digest l = load_artifact hashes digest l >>= λ a.
    if not (same_artifact_kind a.kind policy)
    then err not_a_policy
    else map_err (λ _. unreadable_policy) (policy_from_artifact a.policy)
