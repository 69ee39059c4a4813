-- ===== src/Predict/Observation/Governs.antt =====
-- The governing observation, described without an order of the observations.
use japan_agent.Base.{
  ◌≤◌, ◌<◌, ◌≡◌, ◌≢◌, inl, inr, refl, sym, ◌∙◌, subst, Bool, Bool-cases, false, ◌&&◌, not, not-true,
  List, [], ◌∷◌, any, In, leb, leb→lt, lt→leb, ◌==◌, ==_lem, arith,
}
use japan_agent.Predict.Observation.{
  Observation, same_evidence, starting, ending, latest_end, candidates, least, by_start, mixed,
  contradicts,
}
use japan_agent.Predict.Observation.Least.{
  Agrees, same_evidence_iff, Agrees-sym, Agrees-trans, latest_end-bound, latest_end-attained,
  In-filter, filter-In, any-false, all-any, least-In, least-starts,
}

-- The observation that ended last and, among those, began last; whatever other evidence there is
-- ended before it began and before it ended.
pub record Governs (g : Observation) (rows : List Observation) : Type 0 where
  pub member : In g rows
  pub ends_last : (r : Observation) → In r rows → ending r ≤ ending g
  pub starts_last : (r : Observation) → In r rows → ending r ≡ ending g → starting r ≤ starting g
  pub undisputed :
      (r : Observation)
      → In r rows
      → same_evidence r g ≡ false
      → (ending r < starting g) × (ending r < ending g)

agree : (r g : Observation) → same_evidence r g ≢ false → Agrees r g
agree r g h = elim (Bool-cases (same_evidence r g)) [
  | inl e ↦ (same_evidence_iff r g).0 e
  | inr e ↦ absurd (h e)
]

differ : {r g : Observation} → same_evidence r g ≡ false → Agrees r g → ⊥
differ {r} {g} h a = ground (arith, h, (same_evidence_iff r g).1 a)

pub attained :
    (rows : List Observation) (g : Observation)
    → In g rows
    → (r : Observation) × In r rows × (ending r ≡ latest_end rows)
attained [] g h = absurd h
attained (o ∷ os) g h = latest_end-attained o os

module _ (rows : List Observation) where
  pub candidate :
      (r : Observation)
      → In r rows
      → ending r ≡ latest_end rows
      → In r (candidates (latest_end rows) rows)
  unfolding candidates
  candidate r h e = In-filter (λ o. ending o == latest_end rows) r rows h (ground (arith, e))

  candidate-last :
      (r : Observation)
      → In r (candidates (latest_end rows) rows)
      → In r rows × (ending r ≡ latest_end rows)
  unfolding candidates
  candidate-last r h =
      let (k, e) = filter-In (λ o. ending o == latest_end rows) r rows h in (k, ==_lem _ _ e)

  module _ (c : Observation) (cs : List Observation)
      (chosen : candidates (latest_end rows) rows ≡ c ∷ cs) where
    abbrev pub pick : Observation
    pick = least by_start c cs

    pick-In : In pick rows × (ending pick ≡ latest_end rows)
    pick-In = candidate-last pick (subst (In pick) (sym chosen) (least-In by_start c cs))

    among : (r : Observation) → In r rows → ending r ≡ latest_end rows → In r (c ∷ cs)
    among r h e = subst (In r) chosen (candidate r h e)

    first-Agrees : mixed c cs ≡ false → (r : Observation) → In r (c ∷ cs) → Agrees r c
    first-Agrees m r (inl e) =
        subst (λ x. Agrees x c) (sym e)
          (record { same_status = refl; outcomes = refl; checks = refl })
    first-Agrees m r (inr h) =
        (same_evidence_iff r c).0 (not-true _ (any-false (λ o. not (same_evidence o c)) r cs m h))

    early :
        (r : Observation)
        → In r rows
        → same_evidence r pick ≡ false
        → any (contradicts pick) rows ≡ false
        → ending r < starting pick
    early r h d clear =
        leb→lt (starting pick) (ending r) (other d (any-false (contradicts pick) r rows clear h))
      where
        other : {x y : Bool} → x ≡ false → not x && y ≡ false → y ≡ false
        other d h = ground arith

    before :
        mixed c cs ≡ false
        → (r : Observation) → In r rows
        → same_evidence r pick ≡ false
        → ending r < ending pick
    before m r h d = elim (Bool-cases (leb (ending pick) (ending r))) [
      | inr less ↦ leb→lt _ _ less
      | inl at_end ↦
          let last : ending r ≡ latest_end rows =
            ground (arith, at_end, pick-In.1, latest_end-bound r rows h) in
          absurd (
            differ d (
              Agrees-trans (first-Agrees m r (among r h last))
                (Agrees-sym (first-Agrees m pick (least-In by_start c cs)))))
    ]

    pub pick-Governs : mixed c cs ≡ false → any (contradicts pick) rows ≡ false → Governs pick rows
    pick-Governs m clear = record {
      member = pick-In.0;
      ends_last = λ r h. subst (λ t. ending r ≤ t) (sym pick-In.1) (latest_end-bound r rows h);
      starts_last = λ r h e. least-starts c cs r (among r h (e ∙ pick-In.1));
      undisputed = λ r h d. (early r h d clear, before m r h d);
    }

    module _ (g : Observation) (h : Governs g rows) where
      at_end : ending g ≡ latest_end rows
      at_end =
          let (r, k, e) = attained rows g h.member in
          omega (arith, e, h.ends_last r k, latest_end-bound g rows h.member)

      all_agree : (r : Observation) → In r (c ∷ cs) → Agrees r g
      all_agree r k =
          let (row, last) = candidate-last r (subst (In r) (sym chosen) k) in
          agree r g (λ d. omega (arith, (h.undisputed r row d).1, last, at_end))

      same_start : starting pick ≡ starting g
      same_start = omega (
        arith,
        h.starts_last pick pick-In.0 (pick-In.1 ∙ sym at_end),
        least-starts c cs g (among g h.member at_end),
      )

      pub uniform : mixed c cs ≡ false
      uniform =
          all-any (λ o. not (same_evidence o c)) cs
            (λ r k. ground (
              arith,
              (same_evidence_iff r c).1
                  (Agrees-trans (all_agree r (inr k)) (Agrees-sym (all_agree c (inl refl)))),
            ))

      pub pick-Agrees : Agrees pick g
      pick-Agrees = all_agree pick (least-In by_start c cs)

      unopposed : (r : Observation) → In r rows → contradicts pick r ≡ false
      unopposed r k = elim (Bool-cases (same_evidence r pick)) [
        | inl e ↦ rw e refl
        | inr d ↦ elim (Bool-cases (same_evidence r g)) [
          | inl e ↦
              absurd
                (differ d (Agrees-trans ((same_evidence_iff r g).0 e) (Agrees-sym pick-Agrees)))
          | inr d' ↦ rw d (
              lt→leb (ending r) (starting pick)
                (omega (arith, (h.undisputed r k d').0, same_start)))
        ]
      ]

      pub clear : any (contradicts pick) rows ≡ false
      clear = all-any (contradicts pick) rows unopposed
