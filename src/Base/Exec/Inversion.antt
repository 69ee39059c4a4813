-- ===== src/Base/Exec/Inversion.antt =====
-- Inversion of a run that returned: its first step returned too.
use mathlib.Core.Path.{◌≡◌, refl, sym, ap, ◌∙◌}
use mathlib.Core.Bool.{Bool, true, false}
use japan_agent.Base.Results.{Result, ok, err}
use japan_agent.Base.Exec.{Exec, ◌>>=◌, lift, raise_if}

module _ {S E A B : Type 0} where
  abbrev continued : (A → Exec S E B) → Result E A × S → Result E B × S
  continued f (ok a, s) = f a s
  continued f (err e, s) = (err e, s)

  continued_lem : (m : Exec S E A) (f : A → Exec S E B) (s : S) → (m >>= f) s ≡ continued f (m s)
  continued_lem m f s = go (m s)
    where
      go :
          (q : Result E A × S)
          → (elim q.0 [ ok a ↦ f a q.1 | err e ↦ (err e, q.1) ]) ≡ continued f q
      go (ok a, t) = refl
      go (err e, t) = refl

  pub >>=-eq-ok :
      (m : Exec S E A) (f : A → Exec S E B) (s : S) {b : B} {t : S}
      → (m >>= f) s ≡ (ok b, t)
      → (a : A) × (s' : S) × (m s ≡ (ok a, s')) × (f a s' ≡ (ok b, t))
  >>=-eq-ok m f s {b} {t} h = go (m s) refl (sym (continued_lem m f s) ∙ h)
    where
      go :
          (q : Result E A × S)
          → m s ≡ q
          → continued f q ≡ (ok b, t)
          → (a : A) × (s' : S) × (m s ≡ (ok a, s')) × (f a s' ≡ (ok b, t))
      go (ok a, s') e k = (a, s', e, k)
      go (err x, s') e k = absurd (cc (ap (λ r. r.0) k))

  -- A step that does not change the state.
  pub lift-eq-ok :
      (r : Result E A) (f : A → Exec S E B) (s : S) {b : B} {t : S}
      → (lift r >>= f) s ≡ (ok b, t)
      → (a : A) × (r ≡ ok a) × (f a s ≡ (ok b, t))
  lift-eq-ok (ok a) f s h = (a, refl, h)
  lift-eq-ok (err e) f s h = absurd (cc (ap (λ r. r.0) h))

module _ {S E B : Type 0} where
  pub raise_if-eq-ok :
      (c : Bool) (e : E) (f : Unit {0} → Exec S E B) (s : S) {b : B} {t : S}
      → (raise_if c e >>= f) s ≡ (ok b, t)
      → (c ≡ false) × (f tt s ≡ (ok b, t))
  raise_if-eq-ok true e f s h = absurd (cc (ap (λ r. r.0) h))
  raise_if-eq-ok false e f s h = (refl, h)

module _ {S E A : Type 0} where
  -- The pair of a result and a state.
  pub outcome-eq :
      {a b : A} {s t : S} → ◌≡◌ {A = Result E A × S} (ok a, s) (ok b, t) → (a ≡ b) × (s ≡ t)
  outcome-eq h = (cc (ap (λ r. r.0) h), ap (λ r. r.1) h)

  -- The result and the state of a run that returned.
  pub returned : {q : Result E A × S} {a : A} {s : S} → q ≡ (ok a, s) → (q.0 ≡ ok a) × (q.1 ≡ s)
  returned e = (ap (λ r. r.0) e, ap (λ r. r.1) e)
