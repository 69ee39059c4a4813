-- ===== src/Predict/Observation.antt =====
-- predict_agent/settlement.py: which observation of a market governs, and the outcome that it
-- settles.
pub mod Least
pub mod Governs
pub mod Final
use japan_agent.Base.{
  ℕ, ◌+◌, ◌≡◌, Bool, true, false, ◌&&◌, ◌||◌, not, Option, none, some, List, [], ◌∷◌, String,
  str_eq, any, filter, if◌then◌else◌, ltb, leb, ◌==◌, max,
}
use japan_agent.Time.{Instant}
use japan_agent.Predict.Outcome.{
  Outcome, yes, no, half, unknown, CrossCheck, confirmed, unchecked, mismatch, not_applicable,
  same_outcome,
}

-- A row of resolution_observations. The program writes one of the four outcomes, or none.
pub record Observation : Type 0 where
  pub id : ℕ
  pub status : String
  pub outcome : Option Outcome
  pub cross_check : CrossCheck
  pub resolution_requested_at : Option Instant
  pub resolution_fetched_at : Instant
  pub gamma_fetched_at : Option Instant

abbrev pub same_check : CrossCheck → CrossCheck → Bool
same_check confirmed confirmed = true
same_check unchecked unchecked = true
same_check mismatch mismatch = true
same_check not_applicable not_applicable = true
same_check _ _ = false

abbrev pub same_outcomes : Option Outcome → Option Outcome → Bool
same_outcomes none none = true
same_outcomes (some a) (some b) = same_outcome a b
same_outcomes _ _ = false

-- `_evidence(a) == _evidence(b)`
unfoldable pub same_evidence : Observation → Observation → Bool
same_evidence a b =
    str_eq a.status b.status
    && (same_outcomes a.outcome b.outcome && same_check a.cross_check b.cross_check)

-- `_interval`
unfoldable pub starting : Observation → Instant
starting o = elim o.resolution_requested_at [ none ↦ o.resolution_fetched_at | some t ↦ t ]

unfoldable pub ending : Observation → Instant
ending o = elim o.gamma_fetched_at [
  | none ↦ o.resolution_fetched_at
  | some t ↦ max o.resolution_fetched_at t
]

-- `max(_interval(row)[1] for row in rows)`
unfoldable pub latest_end : List Observation → Instant
latest_end [] = 0
latest_end (o ∷ os) = max (ending o) (latest_end os)

unfoldable pub candidates : Instant → List Observation → List Observation
unfolding ending
candidates last rows = filter (λ o. ending o == last) rows

-- `len({_evidence(row) for row in candidates}) > 1`, given the first of them
abbrev pub mixed : Observation → List Observation → Bool
mixed first others = any (λ o. not (same_evidence o first)) others

-- `min(candidates, key=…)`: the first for which no other is smaller
unfoldable pub least :
    (Observation → Observation → Bool) → Observation → List Observation → Observation
least smaller best [] = best
least smaller best (o ∷ os) = let b = if smaller o best then o else best in least smaller b os

abbrev pub by_id : Observation → Observation → Bool
by_id a b = ltb a.id b.id

-- `key=lambda row: (-_interval(row)[0].timestamp(), row["id"])`
unfoldable pub by_start : Observation → Observation → Bool
unfolding starting
by_start a b = ltb (starting b) (starting a) || (starting a == starting b && ltb a.id b.id)

-- An observation with other evidence that ended after the governing one began.
abbrev pub contradicts : Observation → Observation → Bool
contradicts g o = not (same_evidence o g) && leb (starting g) (ending o)

-- The governing observation among the candidates; there is always one.
unfoldable pub govern : List Observation → List Observation → Option Observation × Bool
unfolding least by_start
govern rows [] = (none, false)
govern rows (c ∷ cs) =
    if mixed c cs
    then (some (least by_id c cs), true)
    else (some (least by_start c cs), any (contradicts (least by_start c cs)) rows)

unfoldable pub governing_observation : List Observation → Option Observation × Bool
unfolding govern latest_end candidates
governing_observation rows = govern rows (candidates (latest_end rows) rows)

pub data PendingReason : Type 0 where
  awaiting_resolution awaiting_confirmation ambiguous_evidence unsettleable : PendingReason

-- `outcome in SETTLEABLE_OUTCOMES`
abbrev pub is_settleable : Option Outcome → Bool
is_settleable none = false
is_settleable (some unknown) = false
is_settleable (some _) = true

abbrev pub checked_reason : Observation → Option PendingReason
checked_reason o = elim o.cross_check [
  | unchecked ↦ some awaiting_confirmation
  | confirmed ↦ if is_settleable o.outcome then none else some unsettleable
  | _ ↦ some unsettleable
]

-- `_pending_reason`
unfoldable pub pending_reason : Option Observation → Bool → Option PendingReason
pending_reason none ambiguous = some awaiting_resolution
pending_reason (some o) ambiguous =
    if ambiguous
    then some ambiguous_evidence
    else if not (str_eq o.status "resolved")
    then some awaiting_resolution
    else checked_reason o

unfoldable pub outcome_of : Option Observation → Bool → Option Outcome
unfolding pending_reason
outcome_of none ambiguous = none
outcome_of (some o) ambiguous = elim (pending_reason (some o) ambiguous) [
  | none ↦ o.outcome
  | some _ ↦ none
]

unfoldable pub final_outcome : List Observation → Option Outcome
unfolding governing_observation outcome_of
final_outcome rows = let (g, ambiguous) = governing_observation rows in outcome_of g ambiguous
