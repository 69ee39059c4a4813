-- ===== src/Risk/Checks.antt =====
-- The checks of the risk engine: which codes a list of them reports.
use japan_agent.Base.{◌≡◌, refl, true, false, List, [], ◌∷◌, ◌++◌, ◌↔◌}
use japan_agent.Risk.Policy.{Check, violations}

-- No test of the checks holds.
abbrev pub Passes : List Check → Type 0
Passes [] = Unit
Passes ((test, code) ∷ checks) = (test ≡ false) × Passes checks

pub violations-Passes : (checks : List Check) → violations checks ≡ [] → Passes checks
unfolding violations
violations-Passes [] h = tt
violations-Passes ((true, code) ∷ checks) h = cc
violations-Passes ((false, code) ∷ checks) h = (refl, violations-Passes checks h)

pub Passes-violations : (checks : List Check) → Passes checks → violations checks ≡ []
unfolding violations
Passes-violations [] h = refl
Passes-violations ((test, code) ∷ checks) (e, h) = rw e (Passes-violations checks h)

pub Passes-append : (cs ds : List Check) → Passes (cs ++ ds) ↔ (Passes cs × Passes ds)
Passes-append [] ds = (λ h. (tt, h), λ h. h.1)
Passes-append ((test, code) ∷ cs) ds = (
  λ h. let rest = (Passes-append cs ds).0 h.1 in ((h.0, rest.0), rest.1),
  λ h. (h.0.0, (Passes-append cs ds).1 (h.0.1, h.1)),
)
