-- ===== src/Predict/Budget/Charged.antt =====
-- What an attempt whose cost is unknown is charged at.
use japan_agent.Base.{
  ◌≡◌, refl, subst, sym, ◌∙◌, ap, true, false, Bool-cases, Option-cases, Option, none, some, [],
  ◌∷◌, String, str_eq, ok, inl, inr,
}
use japan_agent.Base.Decimal.{Decimal, dec, lt, max_of}
use japan_agent.Base.Decimal.Order.{Lt, Le, lt→Lt, lt→Le, Le→lt}
use japan_agent.Base.Decimal.Linear.{Le-refl, Le-trans, Le_of_Lt, Le-max_of}
use japan_agent.Base.Table.{Table, lookup}
use japan_agent.Predict.Gamma.{JsonDecimal, unreadable, not_finite, finite}
use japan_agent.Predict.Ledger.{Cohort, is_started, Attempt, Ledger}
use japan_agent.Predict.Budget.{
  frozen_cap, highest_cap, cap_or, caps_with, attempt_caps, highest_of, cap_of, charge,
}

-- At least a value, and at least every cap that a cohort has frozen.
pub record IsHighest (least : Decimal) (rows : Table Cohort) (x : Decimal) : Type 0 where
  pub above : Le least x
  pub above_caps :
      (id : String) (c : Cohort) (cap : Decimal)
      → lookup id rows ≡ some c
      → frozen_cap c.frozen_cap ≡ some cap
      → Le cap x

no_cap : {cap : Decimal} → none ≡ some cap → ⊥
no_cap h = cc

same_cap : {a b : Decimal} → some a ≡ some b → a ≡ b
same_cap h = cc

same_cohort : {a b : Cohort} → some a ≡ some b → a ≡ b
same_cohort h = cc

-- A larger lower bound, and one row more.
raised :
    (least more x : Decimal) (key : String) (c : Cohort) (rows : Table Cohort)
    → Le least more
    → ((cap : Decimal) → frozen_cap c.frozen_cap ≡ some cap → Le cap more)
    → IsHighest more rows x
    → IsHighest least ((key, c) ∷ rows) x
unfolding lookup
raised least more x key c rows h k i = record {
  above = Le-trans least more x h i.above;
  above_caps = λ id other cap found froze. elim (Bool-cases (str_eq key id)) [
    | inr passed ↦ i.above_caps id other cap (rw (passed, lookup) at found) froze
    | inl here ↦
        let same = same_cohort (rw (here, lookup) at found) in
        Le-trans cap more x
          (k cap (subst (λ (d : Cohort). frozen_cap d.frozen_cap ≡ some cap) (sym same) froze))
          i.above
  ];
}

highest_cap-IsHighest :
    (least : Decimal) (rows : Table Cohort) → IsHighest least rows (highest_cap least rows)
unfolding highest_cap lookup
highest_cap-IsHighest least [] = record {
  above = Le-refl least;
  above_caps = λ id c cap h. absurd (cc h);
}
highest_cap-IsHighest least ((key, c) ∷ rows) = elim (Option-cases (frozen_cap c.frozen_cap)) [
  | inl open' ↦
      rw (open', highest_cap)
        (raised least least (highest_cap least rows) key c rows (Le-refl least)
          (λ cap froze. absurd (no_cap (sym open' ∙ froze))) (highest_cap-IsHighest least rows))
  | inr (found, froze) ↦
      let (first, second) = Le-max_of least found in
      rw (froze, highest_cap)
        (raised least (max_of least found) (highest_cap (max_of least found) rows) key c rows first
          (λ cap same.
            subst (λ (d : Decimal). Le d (max_of least found)) (same_cap (sym froze ∙ same)) second)
          (highest_cap-IsHighest (max_of least found) rows))
]

abbrev charged_cap : Decimal → Option Cohort → Option Decimal
charged_cap fallback none = none
charged_cap fallback (some c) = some (cap_or fallback (frozen_cap c.frozen_cap))

lookup-caps_with :
    (fallback : Decimal) (id : String) (rows : Table Cohort)
    → lookup id (caps_with fallback rows) ≡ charged_cap fallback (lookup id rows)
unfolding caps_with lookup
lookup-caps_with fallback id [] = refl
lookup-caps_with fallback id ((key, c) ∷ rows) = elim (Bool-cases (str_eq key id)) [
  | inl here ↦ rw here refl
  | inr passed ↦ rw passed (lookup-caps_with fallback id rows)
]

highest_of-Le :
    (least : Decimal) (caps : Table Decimal)
    → Le least (highest_of least caps)
      × ((id : String) (cap : Decimal) → lookup id caps ≡ some cap → Le cap (highest_of least caps))
unfolding highest_of lookup
highest_of-Le least [] = (Le-refl least, λ id cap h. absurd (no_cap h))
highest_of-Le least ((key, first) ∷ rows) =
    let (above, others) = highest_of-Le (max_of least first) rows in
    let (low, high) = Le-max_of least first in
    (
      Le-trans least (max_of least first) _ low above,
      λ id cap h. elim (Bool-cases (str_eq key id)) [
        | inl here ↦
            subst (λ (d : Decimal). Le d (highest_of (max_of least first) rows))
              (same_cap (rw (here, lookup) at h)) (Le-trans first (max_of least first) _ high above)
        | inr passed ↦ others id cap (rw (passed, lookup) at h)
      ],
    )

-- The fallback of a cohort that is not there.
fallback-IsHighest :
    (per_forecast : Decimal) (l : Ledger)
    → IsHighest per_forecast l.cohorts (highest_of per_forecast (attempt_caps per_forecast l))
unfolding attempt_caps
fallback-IsHighest per_forecast l =
    let top = highest_cap per_forecast l.cohorts in
    let (above, others) = highest_of-Le per_forecast (caps_with top l.cohorts) in
    record {
      above = above;
      above_caps = λ id c cap found froze.
          others id cap (rw (lookup-caps_with top id l.cohorts, found, froze) refl);
    }

-- What an attempt is charged at: the cap that its cohort has frozen, and where there is none, or no
-- such cohort, at least the running cap and every cap that some cohort has frozen.
abbrev pub IsCharged : Decimal → Ledger → String → Decimal → Type 0
IsCharged per_forecast l id x =
    ((c : Cohort) (cap : Decimal)
      → lookup id l.cohorts ≡ some c
      → frozen_cap c.frozen_cap ≡ some cap
      → x ≡ cap)
    × (((c : Cohort) → lookup id l.cohorts ≡ some c → frozen_cap c.frozen_cap ≡ none)
        → IsHighest per_forecast l.cohorts x)

none_cohort : {c : Cohort} → none ≡ some c → ⊥
none_cohort h = cc

pub cap_of-IsCharged :
    (per_forecast : Decimal) (l : Ledger) (id : String)
    → let caps = attempt_caps per_forecast l in
      IsCharged per_forecast l id (cap_of id (highest_of per_forecast caps) caps)
unfolding attempt_caps
cap_of-IsCharged per_forecast l id =
    let top = highest_cap per_forecast l.cohorts in
    elim (Option-cases (lookup id l.cohorts)) [
      | inl missing ↦
          rw (lookup-caps_with top id l.cohorts, missing)
            (
              λ c cap h. absurd (none_cohort h),
              λ h. unfold attempt_caps in fallback-IsHighest per_forecast l,
            )
      | inr (c, found) ↦ elim (Option-cases (frozen_cap c.frozen_cap)) [
        | inl open' ↦
            rw (lookup-caps_with top id l.cohorts, found, open')
              (
                λ d cap h froze. absurd (
                    no_cap (
                      sym open'
                      ∙ ap (λ (e : Cohort). frozen_cap e.frozen_cap) (same_cohort h)
                      ∙ froze)),
                λ h. highest_cap-IsHighest per_forecast l.cohorts,
              )
        | inr (cap, froze) ↦
            rw (lookup-caps_with top id l.cohorts, found, froze)
              (
                λ d other h froze'. same_cap (
                    sym froze
                    ∙ ap (λ (e : Cohort). frozen_cap e.frozen_cap) (same_cohort h)
                    ∙ froze'),
                λ h. absurd (no_cap (sym (h c refl) ∙ froze)),
              )
      ]
    ]

-- An attempt that is still STARTED is charged at the cap that its cohort has frozen; where its cohort
-- has none that can be read, it is charged at no less than the running cap and no less than the cap
-- of any cohort.
pub charge_started :
    (per_forecast : Decimal) (l : Ledger) (a : Attempt)
    → is_started a.status ≡ true
    → let caps = attempt_caps per_forecast l in
      (x : Decimal) × (charge caps (highest_of per_forecast caps) a ≡ ok x)
      × IsCharged per_forecast l a.cohort_id x
unfolding charge
charge_started per_forecast l a h =
    let caps = attempt_caps per_forecast l in
    (
      cap_of a.cohort_id (highest_of per_forecast caps) caps,
      rw h refl,
      cap_of-IsCharged per_forecast l a.cohort_id,
    )

frozen_cap-positive : (j : JsonDecimal) (cap : Decimal) → frozen_cap j ≡ some cap → Lt (dec 0 0) cap
unfolding frozen_cap
frozen_cap-positive unreadable cap h = absurd (no_cap h)
frozen_cap-positive not_finite cap h = absurd (no_cap h)
frozen_cap-positive (finite c) cap h = elim (Bool-cases (lt (dec 0 0) c)) [
  | inl more ↦
      lt→Lt (dec 0 0) cap
        (subst (λ (d : Decimal). lt (dec 0 0) d ≡ true) (same_cap (rw more at h)) more)
  | inr less ↦ absurd (no_cap (rw less at h))
]

-- Where the running cap is not negative, no charge is.
pub cap_of-not_negative :
    (per_forecast : Decimal) (l : Ledger) (id : String)
    → lt per_forecast (dec 0 0) ≡ false
    → let caps = attempt_caps per_forecast l in
      lt (cap_of id (highest_of per_forecast caps) caps) (dec 0 0) ≡ false
cap_of-not_negative per_forecast l id h =
    let caps = attempt_caps per_forecast l in
    let x = cap_of id (highest_of per_forecast caps) caps in
    let (given, otherwise) = cap_of-IsCharged per_forecast l id in
    let least : Le (dec 0 0) per_forecast = lt→Le per_forecast (dec 0 0) h in
    Le→lt x (dec 0 0) (elim (Option-cases (lookup id l.cohorts)) [
      | inl missing ↦
          Le-trans (dec 0 0) per_forecast x least
            (otherwise (λ c found. absurd (none_cohort (sym missing ∙ found)))).above
      | inr (c, found) ↦ elim (Option-cases (frozen_cap c.frozen_cap)) [
        | inl open' ↦
            Le-trans (dec 0 0) per_forecast x least
              (otherwise (λ d found'.
                ap (λ (e : Cohort). frozen_cap e.frozen_cap) (same_cohort (sym found' ∙ found))
                ∙ open')).above
        | inr (cap, froze) ↦
            subst (Le (dec 0 0)) (sym (given c cap found froze))
              (Le_of_Lt (dec 0 0) cap (frozen_cap-positive c.frozen_cap cap froze))
      ]
    ])
