-- ===== src/Predict/Outcome/Confirmed.antt =====
-- When the outcome of a market counts as confirmed.
use japan_agent.Base.{◌≡◌, ◌≢◌, ◌↔◌, ◌⊎◌, Option, none, some, arith}
use japan_agent.Predict.Outcome.{
  Outcome, unknown, confirmed, mismatch, same_outcome_iff, GammaPrices, gamma_outcome, gamma_lean,
  cross_check, reconcile_outcome,
}

cross_check_iff :
    (o : Outcome) (exact lean : Option Outcome) (r : Outcome)
    → (cross_check o exact lean ≡ (some r, confirmed)) ↔ ((o ≡ r) × (exact ≡ some r))
unfolding cross_check
cross_check_iff o exact lean r = grind (arith, same_outcome_iff)

cross_check-result :
    (o : Outcome) (exact lean : Option Outcome)
    → ((cross_check o exact lean).0 ≡ some o)
      ⊎ (cross_check o exact lean ≡ (some unknown, mismatch))
unfolding cross_check
cross_check-result o exact lean = ground arith

-- An outcome is confirmed exactly if the resolution states it, it is not UNKNOWN, and the prices
-- of Gamma are exactly those of that outcome. The check passes the stated outcome on, or it reports
-- a mismatch and makes the outcome UNKNOWN.
pub reconcile_outcome_iff :
    (stated : Option Outcome) (g : GammaPrices) (o : Outcome)
    → ((reconcile_outcome stated g ≡ (some o, confirmed))
        ↔ ((stated ≡ some o) × (o ≢ unknown) × (gamma_outcome g ≡ some o)))
      × (((reconcile_outcome stated g).0 ≡ stated)
          ⊎ (reconcile_outcome stated g ≡ (some unknown, mismatch)))
unfolding reconcile_outcome
reconcile_outcome_iff none g o = ground arith
reconcile_outcome_iff (some unknown) g o = ground arith
reconcile_outcome_iff (some s) g o = grind (
  arith,
  cross_check_iff s (gamma_outcome g) (gamma_lean g) o,
  cross_check-result s (gamma_outcome g) (gamma_lean g),
)
