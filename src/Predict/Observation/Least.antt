-- ===== src/Predict/Observation/Least.antt =====
-- The choice of the governing observation: lemmas on maxima, filters and minima.
use japan_agent.Base.{
  ◌≤◌, ◌≡◌, ◌↔◌, inl, inr, refl, sym, ◌∙◌, ap, subst, Bool, Bool-cases, true, false, ◌&&◌, Option,
  List, [], ◌∷◌, str_eq_iff, any, filter, In, if◌then◌else◌, leb, arith,
}
use japan_agent.Predict.Outcome.{Outcome, CrossCheck}
use japan_agent.Predict.Observation.{
  Observation, same_check, same_outcomes, same_evidence, starting, ending, latest_end, least,
  by_start,
}

-- The fields that are evidence.
pub record Agrees (a b : Observation) : Type 0 where
  pub same_status : a.status ≡ b.status
  pub outcomes : a.outcome ≡ b.outcome
  pub checks : a.cross_check ≡ b.cross_check

same_check_iff : (a b : CrossCheck) → (same_check a b ≡ true) ↔ (a ≡ b)
same_check_iff a b = ground arith

same_outcomes_iff : (a b : Option Outcome) → (same_outcomes a b ≡ true) ↔ (a ≡ b)
same_outcomes_iff a b = ground arith

pub same_evidence_iff : (a b : Observation) → (same_evidence a b ≡ true) ↔ Agrees a b
unfolding same_evidence
same_evidence_iff a b = (
  (λ h.
      let (s, o, c) = parts h in
      record {
        same_status = (str_eq_iff _ _).0 s;
        outcomes = (same_outcomes_iff _ _).0 o;
        checks = (same_check_iff _ _).0 c;
      }),
  (λ h. ground (
    arith,
    (str_eq_iff a.status b.status).1 h.same_status,
    (same_outcomes_iff a.outcome b.outcome).1 h.outcomes,
    (same_check_iff a.cross_check b.cross_check).1 h.checks,
  )),
)
  where
    parts : {x y z : Bool} → x && (y && z) ≡ true → (x ≡ true) × (y ≡ true) × (z ≡ true)
    parts h = ground arith

pub Agrees-sym : {a b : Observation} → Agrees a b → Agrees b a
Agrees-sym h = record {
  same_status = sym h.same_status;
  outcomes = sym h.outcomes;
  checks = sym h.checks;
}

pub Agrees-trans : {a b c : Observation} → Agrees a b → Agrees b c → Agrees a c
Agrees-trans h k = record {
  same_status = h.same_status ∙ k.same_status;
  outcomes = h.outcomes ∙ k.outcomes;
  checks = h.checks ∙ k.checks;
}

pub latest_end-bound :
    (r : Observation) (rows : List Observation) → In r rows → ending r ≤ latest_end rows
unfolding latest_end
latest_end-bound r [] h = absurd h
latest_end-bound r (o ∷ os) (inl e) = rw e (omega arith)
latest_end-bound r (o ∷ os) (inr h) = omega (arith, latest_end-bound r os h)

pub latest_end-attained :
    (o : Observation) (os : List Observation)
    → (r : Observation) × In r (o ∷ os) × (ending r ≡ latest_end (o ∷ os))
unfolding latest_end
latest_end-attained o [] = (o, inl refl, omega arith)
latest_end-attained o (p ∷ ps) =
    let (r, h, e) = latest_end-attained p ps in
    elim (Bool-cases (leb (ending o) (latest_end (p ∷ ps)))) [
      | inl smaller ↦ (r, inr h, ground (arith, e, smaller))
      | inr greater ↦ (o, inl refl, ground (arith, greater))
    ]

pub In-filter :
    {A : Type 0} (p : A → Bool) (x : A) (xs : List A) → In x xs → p x ≡ true → In x (filter p xs)
In-filter p x [] k h = absurd k
In-filter p x (y ∷ ys) (inl e) h = rw (ap p (sym e) ∙ h) (inl e)
In-filter p x (y ∷ ys) (inr k) h = elim (Bool-cases (p y)) [
  | inl b ↦ rw b (inr (In-filter p x ys k h))
  | inr b ↦ rw b (In-filter p x ys k h)
]

pub filter-In :
    {A : Type 0} (p : A → Bool) (x : A) (xs : List A) → In x (filter p xs) → In x xs × (p x ≡ true)
filter-In p x [] h = absurd h
filter-In p x (y ∷ ys) h =
    let rest = filter-In p x ys in
    elim (Bool-cases (p y)) [
      | inl b ↦ elim (subst (λ t. In x (if t then y ∷ filter p ys else filter p ys)) b h) [
        | inl e ↦ (inl e, ap p e ∙ b)
        | inr k ↦ (inr (rest k).0, (rest k).1)
      ]
      | inr b ↦
          let k = rest (subst (λ t. In x (if t then y ∷ filter p ys else filter p ys)) b h) in
          (inr k.0, k.1)
    ]

pub any-false :
    {A : Type 0} (p : A → Bool) (x : A) (xs : List A) → any p xs ≡ false → In x xs → p x ≡ false
any-false p x [] h k = absurd k
any-false p x (y ∷ ys) h (inl e) = ap p e ∙ ground arith
any-false p x (y ∷ ys) h (inr k) = any-false p x ys (ground arith) k

pub all-any :
    {A : Type 0} (p : A → Bool) (xs : List A) → ((x : A) → In x xs → p x ≡ false) → any p xs ≡ false
all-any p [] h = refl
all-any p (y ∷ ys) h = rw (h y (inl refl)) (all-any p ys (λ x k. h x (inr k)))

module _ (smaller : Observation → Observation → Bool) (best o : Observation)
    (os : List Observation) where
  least_smaller : smaller o best ≡ true → least smaller best (o ∷ os) ≡ least smaller o os
  unfolding least
  least_smaller b = ap (λ c. least smaller (if c then o else best) os) b

  least_other : smaller o best ≡ false → least smaller best (o ∷ os) ≡ least smaller best os
  unfolding least
  least_other b = ap (λ c. least smaller (if c then o else best) os) b

In-skip : {A : Type 0} {r a b : A} (xs : List A) → In r (a ∷ xs) → In r (a ∷ b ∷ xs)
In-skip xs (inl e) = inl e
In-skip xs (inr h) = inr (inr h)

pub least-In :
    (smaller : Observation → Observation → Bool) (best : Observation) (os : List Observation)
    → In (least smaller best os) (best ∷ os)
unfolding least
least-In smaller best [] = inl refl
least-In smaller best (o ∷ os) = elim (Bool-cases (smaller o best)) [
  | inl b ↦
      subst (λ r. In r (best ∷ o ∷ os)) (sym (least_smaller smaller best o os b))
        (inr (least-In smaller o os))
  | inr b ↦
      subst (λ r. In r (best ∷ o ∷ os)) (sym (least_other smaller best o os b))
        (In-skip os (least-In smaller best os))
]

-- The choice starts last.
pub least-starts :
    (best : Observation) (os : List Observation) (r : Observation)
    → In r (best ∷ os)
    → starting r ≤ starting (least by_start best os)
unfolding least by_start
least-starts best [] r (inr h) = absurd h
least-starts best [] r (inl e) = rw e (omega arith)
least-starts best (o ∷ os) r h = elim (Bool-cases (by_start o best)) [
  | inl later ↦
      subst (λ c. starting r ≤ starting c) (sym (least_smaller by_start best o os later))
        (pick (least-starts o os) h (ground (arith, later)) (ground arith))
  | inr earlier ↦
      subst (λ c. starting r ≤ starting c) (sym (least_other by_start best o os earlier))
        (pick (least-starts best os) h (ground arith) (ground (arith, earlier)))
]
  where
    pick :
        {c : Observation}
        → ((x : Observation) → In x (c ∷ os) → starting x ≤ starting (least by_start c os))
        → In r (best ∷ o ∷ os)
        → starting best ≤ starting c
        → starting o ≤ starting c
        → starting r ≤ starting (least by_start c os)
    pick {c} bound (inl e) p q = rw e (omega (arith, bound c (inl refl)))
    pick {c} bound (inr (inl e)) p q = rw e (omega (arith, bound c (inl refl)))
    pick bound (inr (inr k)) p q = bound r (inr k)
