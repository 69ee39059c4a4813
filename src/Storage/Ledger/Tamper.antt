-- ===== src/Storage/Ledger/Tamper.antt =====
-- Two ledgers that verify and end in the same hash: what a change of the past takes.
use native.Mathlib.Decide.{ℕ_discrete}
use japan_agent.Base.{
  ℕ, ◌≡◌, ◌≢◌, refl, sym, ◌∙◌, ap, ◌⊎◌, inl, inr, List, [], ◌∷◌, map, String, ok, arith, length, In,
}
use japan_agent.Base.Text.{string_discrete}
use japan_agent.Storage.Ledger.{Core, Event, genesis, last_hash, verify_event_chain}
use japan_agent.Storage.Ledger.Chain.{IsChain, verify_event_chain_iff}

abbrev pub cores : {P : Type 0} → List (Event P) → List (Core P)
cores es = map (λ e. e.core) es

module _ {P : Type 0} (hash : Core P → String) where
  -- An event of each ledger, of different fields that have the same hash, which both events carry.
  abbrev pub Collision : List (Event P) → List (Event P) → Type 0
  Collision es fs =
      (a : Event P) × (b : Event P) × In a es
      × In b fs
      × (a.core ≢ b.core)
      × (a.event_hash ≡ hash a.core)
      × (b.event_hash ≡ hash b.core)
      × (hash a.core ≡ hash b.core)

  earlier : (e f : Event P) (es fs : List (Event P)) → Collision es fs → Collision (e ∷ es) (f ∷ fs)
  earlier e f es fs (a, b, left, right, differs, at_a, at_b, same) =
      (a, b, inr left, inr right, differs, at_a, at_b, same)

module _ {P : Type 0} (discrete : Discrete P) (hash : Core P → String) where
  Core-discrete : Discrete (Core P)
  Core-discrete = hlevel (ℕ_discrete, string_discrete, discrete)

  chains_agree :
      (p q : String) (es fs : List (Event P))
      → IsChain hash p es
      → IsChain hash q fs
      → length es ≡ length fs
      → last_hash p es ≡ last_hash q fs
      → ((cores es ≡ cores fs) × (p ≡ q)) ⊎ Collision hash es fs
  unfolding last_hash
  chains_agree p q [] [] h k len last = inl (refl, last)
  chains_agree p q [] (f ∷ fs) h k len last = absurd (omega arith)
  chains_agree p q (e ∷ es) [] h k len last = absurd (omega arith)
  chains_agree p q (e ∷ es) (f ∷ fs) (link, hashed, h) (link', hashed', k) len last =
      elim (chains_agree e.event_hash f.event_hash es fs h k (omega arith) last) [
        | inr collision ↦ inr (earlier hash e f es fs collision)
        | inl (rest, same) ↦ elim (Core-discrete e.core f.core) [
          | yes equal ↦
              inl (cc (equal, rest), sym link ∙ ap (λ (c : Core P). c.previous_hash) equal ∙ link')
          | no different ↦
              inr
                (e, f, inl refl, inl refl, different, hashed, hashed', sym hashed ∙ same ∙ hashed')
        ]
      ]

  -- Two ledgers of one length that both verify and end in the same hash hold the same events, but for
  -- their sequence numbers, or an event of the one and an event of the other have different fields and
  -- the same hash.
  pub chain_tamper_evidence :
      (es fs : List (Event P)) (n : ℕ)
      → verify_event_chain hash es ≡ ok n
      → verify_event_chain hash fs ≡ ok n
      → last_hash genesis es ≡ last_hash genesis fs
      → (cores es ≡ cores fs) ⊎ Collision hash es fs
  chain_tamper_evidence es fs n ve vf last =
      let he = (verify_event_chain_iff hash es n).0 ve in
      let hf = (verify_event_chain_iff hash fs n).0 vf in
      elim (chains_agree genesis genesis es fs he.0 hf.0 (omega (arith, he.1, hf.1)) last) [
        | inl (same, _) ↦ inl same
        | inr collision ↦ inr collision
      ]
