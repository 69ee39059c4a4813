-- ===== src/Predict/Cohorts.antt =====
-- predict_agent/cohorts.py: the identity of a cohort.
pub mod Ensure
pub mod Sole
use japan_agent.Base.{
  ℕ, zero, suc, Bool, true, false, not, ◌&&◌, ◌||◌, is_some, List, [], ◌∷◌, String, str_eq, Result,
  ok, err, ◌>>=◌, if◌then◌else◌, leb, ◌==◌, all,
}
use japan_agent.Base.Text.{codes}
use japan_agent.Base.Table.{Table, lookup}
use japan_agent.Predict.Gamma.{JsonDecimal}
use japan_agent.Predict.Ledger.{
  prompt, policy, Ledger, LedgerError, no_primary, bad_variant, no_model, bad_window,
  bad_generation,
}
use japan_agent.Predict.Tickets.{refuse_if}
use japan_agent.Predict.Forecasts.Record.{has_artifact}

-- The portfolios are a dictionary from variants to hashes of policies; of the research settings, the
-- cap that `_frozen_cap` reads. An integer below zero is refused as zero is.
pub record CohortIdentity : Type 0 where
  pub portfolios : Table String
  pub prompt_hash : String
  pub model_id : String
  pub frozen_cap : JsonDecimal
  pub scoring_version : String
  pub baseline_window_seconds : ℕ
  pub generation : ℕ

-- The JSON of an identity, and the two ids, which are SHA-256 of JSON.
pub record Ids : Type 0 where
  pub identity_json : CohortIdentity → String
  pub cohort_id_for : CohortIdentity → String
  pub portfolio_id_for : String → String → String

abbrev is_lower : ℕ → Bool
is_lower c = leb b'a' c && leb c b'z'

abbrev is_word : ℕ → Bool
is_word c = is_lower c || ((leb b'0' c && leb c b'9') || c == b'_')

-- `[a-z0-9_]{0,n}$`; `$` lets one line break follow.
unfoldable pub variant_tail : ℕ → List ℕ → Bool
variant_tail n [] = true
variant_tail zero (c ∷ []) = c == 10
variant_tail zero (c ∷ d ∷ cs) = false
variant_tail (suc n) (c ∷ []) = is_word c || c == 10
variant_tail (suc n) (c ∷ d ∷ cs) = is_word c && variant_tail n (d ∷ cs)

unfoldable variant_codes : List ℕ → Bool
unfolding variant_tail
variant_codes [] = false
variant_codes (c ∷ cs) = is_lower c && variant_tail 31 cs

-- `_VARIANT.match(variant)`
unfoldable pub is_variant : String → Bool
unfolding variant_codes
is_variant variant = variant_codes (codes variant)

unfoldable pub validate_identity : CohortIdentity → Result LedgerError (Unit {0})
unfolding is_variant lookup
validate_identity identity =
    refuse_if (not (is_some (lookup "primary" identity.portfolios))) no_primary >>= λ _.
    refuse_if (not (all (λ (row : String × String). is_variant row.0) identity.portfolios))
      bad_variant
    >>= λ _.
        refuse_if (str_eq identity.model_id "" || str_eq identity.scoring_version "") no_model
        >>= λ _. refuse_if (identity.baseline_window_seconds == 0) bad_window >>= λ _.
            refuse_if (identity.generation == 0) bad_generation

-- The prompt and the policies are stored.
unfoldable pub stores_artifacts : CohortIdentity → Ledger → Bool
stores_artifacts identity l =
    has_artifact prompt identity.prompt_hash l
    && all (λ (row : String × String). has_artifact policy row.1 l) identity.portfolios
