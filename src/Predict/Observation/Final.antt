-- ===== src/Predict/Observation/Final.antt =====
-- The outcome that settles, described without an order of the observations.
use japan_agent.Base.{
  ◌≡◌, ◌↔◌, refl, sym, ◌∙◌, subst, Bool, true, false, Option, none, some, List, [], ◌∷◌, str_eq_iff,
  any, In, if◌then◌else◌, arith,
}
use japan_agent.Predict.Outcome.{Outcome, confirmed}
use japan_agent.Predict.Observation.{
  Observation, latest_end, candidates, least, by_start, by_id, mixed, contradicts, govern,
  governing_observation, pending_reason, is_settleable, outcome_of, final_outcome,
}
use japan_agent.Predict.Observation.Least.{Agrees, Agrees-sym}
use japan_agent.Predict.Observation.Governs.{
  Governs, attained, candidate, pick, pick-Governs, uniform, pick-Agrees, clear,
}

-- It settles an outcome: resolved, confirmed by Gamma, and YES, NO or HALF.
pub record Settles (g : Observation) (o : Outcome) : Type 0 where
  pub resolved : g.status ≡ "resolved"
  pub check : g.cross_check ≡ confirmed
  pub outcome : g.outcome ≡ some o
  pub payable : is_settleable (some o) ≡ true

outcome_of_iff :
    (g : Observation) (b : Bool) (o : Outcome)
    → (outcome_of (some g) b ≡ some o) ↔ ((b ≡ false) × Settles g o)
unfolding outcome_of pending_reason
outcome_of_iff g b o = (
  λ h. ground (arith, str_eq_iff g.status "resolved"),
  λ (e, s).
      rw (e, s.check, s.outcome, s.resolved) (rw (s.payable, outcome_of, pending_reason) refl),
)

Agrees-Settles : {g h : Observation} (o : Outcome) → Agrees g h → Settles g o → Settles h o
Agrees-Settles o a s = record {
  resolved = sym a.same_status ∙ s.resolved;
  check = sym a.checks ∙ s.check;
  outcome = sym a.outcomes ∙ s.outcome;
  payable = s.payable;
}

module _ (rows : List Observation) where
  govern_iff :
      (cs : List Observation) (o : Outcome)
      → candidates (latest_end rows) rows ≡ cs
      → (outcome_of (govern rows cs).0 (govern rows cs).1 ≡ some o)
        ↔ ((g : Observation) × Governs g rows × Settles g o)
  unfolding govern outcome_of
  govern_iff [] o chosen = (
    λ h. absurd (ground arith),
    λ (g, h, s).
        let (r, k, e) = attained rows g h.member in
        absurd (subst (In r) chosen (candidate rows r k e)),
  )
  govern_iff (c ∷ cs) o chosen = (
    λ h. chosen_outcome (mixed c cs) refl h,
    λ (g, h, s). rw (uniform rows c cs chosen g h) (
        (outcome_of_iff (pick rows c cs chosen) _ o).1 (
          clear rows c cs chosen g h,
          Agrees-Settles o (Agrees-sym (pick-Agrees rows c cs chosen g h)) s,
        )),
  )
    where
      chosen_outcome :
          (m : Bool)
          → mixed c cs ≡ m
          → (let (x, b) : Option Observation × Bool =
                if m
                then (some (least by_id c cs), true)
                else (some (least by_start c cs), any (contradicts (least by_start c cs)) rows) in
              outcome_of x b ≡ some o)
          → (g : Observation) × Governs g rows × Settles g o
      chosen_outcome true m h =
          absurd (ground (arith, ((outcome_of_iff (least by_id c cs) true o).0 h).0))
      chosen_outcome false m h =
          let (open', s) = (outcome_of_iff (least by_start c cs) _ o).0 h in
          (pick rows c cs chosen, pick-Governs rows c cs chosen m open', s)

-- The outcome of a market is settled exactly if there is an observation that ended last and, among
-- those that did, began last, such that every observation with other evidence had ended before it
-- began and before it ended, and which is resolved, confirmed by Gamma and of that outcome, YES, NO
-- or HALF.
pub final_outcome_iff :
    (rows : List Observation) (o : Outcome)
    → (final_outcome rows ≡ some o) ↔ ((g : Observation) × Governs g rows × Settles g o)
unfolding final_outcome governing_observation
final_outcome_iff rows o = govern_iff rows (candidates (latest_end rows) rows) o refl

same_some : {A : Type 0} (x y : Option A) → ((a : A) → (x ≡ some a) ↔ (y ≡ some a)) → x ≡ y
same_some none none f = refl
same_some none (some b) f = (f b).1 refl
same_some (some a) y f = sym ((f a).0 refl)

same_rows :
    {rows rows' : List Observation} {g : Observation}
    → ((r : Observation) → In r rows ↔ In r rows')
    → Governs g rows
    → Governs g rows'
same_rows {g = g} same h = record {
  member = (same g).0 h.member;
  ends_last = λ r k. h.ends_last r ((same r).1 k);
  starts_last = λ r k. h.starts_last r ((same r).1 k);
  undisputed = λ r k. h.undisputed r ((same r).1 k);
}

-- The settled outcome depends on the set of observations only, not on their order or repetition.
pub final_outcome_order :
    (rows rows' : List Observation)
    → ((r : Observation) → In r rows ↔ In r rows')
    → final_outcome rows ≡ final_outcome rows'
final_outcome_order rows rows' same = same_some (final_outcome rows) (final_outcome rows') (λ o. (
  λ e.
      let (g, h, s) = (final_outcome_iff rows o).0 e in
      (final_outcome_iff rows' o).1 (g, same_rows same h, s),
  λ e.
      let (g, h, s) = (final_outcome_iff rows' o).0 e in
      (final_outcome_iff rows o).1 (g, same_rows (λ r. ((same r).1, (same r).0)) h, s),
))
