-- ===== src/Storage/Ledger/Chain.antt =====
-- Ledgers that verify, and appending to them.
use japan_agent.Base.{
  ℕ, ◌+◌, ◌≡◌, ◌↔◌, refl, ◌∙◌, Bool-cases, inl, inr, Option, List, [], ◌∷◌, ◌++◌, String,
  str_eq_iff, str_eq, Result, ok, err, arith, length, length-append, ap, In, ◌⊎◌, ◌≢◌, true, false,
  subst, sym,
}
use japan_agent.Time.{Instant}
use japan_agent.Storage.Ledger.{
  Core, Event, genesis, LedgerError, last_hash, taken, new_event, append_event, verify_from,
  verify_event_chain,
}

-- Every event links to the one before it and carries the hash of its fields.
abbrev pub IsChain : {P : Type 0} → (Core P → String) → String → List (Event P) → Type 0
IsChain hash previous [] = Unit
IsChain hash previous (e ∷ es) =
    (e.core.previous_hash ≡ previous) × (e.event_hash ≡ hash e.core) × IsChain hash e.event_hash es

module _ {P : Type 0} where
  -- The fields of an event after those of a ledger.
  abbrev pub core_after : String → String → Option String → P → Instant → List (Event P) → Core P
  core_after id kind aggregate payload now es = record {
    event_id = id;
    occurred_at = now;
    kind = kind;
    aggregate_id = aggregate;
    payload = payload;
    previous_hash = last_hash genesis es;
  }

  taken_by :
      (id h : String) (es : List (Event P))
      → taken id h es ≡ true
      → (old : Event P) × In old es × ((old.core.event_id ≡ id) ⊎ (old.event_hash ≡ h))
  unfolding taken
  taken_by id h [] t = cc
  taken_by id h (e ∷ es) t = elim (Bool-cases (str_eq e.core.event_id id)) [
    | inl same ↦ (e, inl refl, inl ((str_eq_iff e.core.event_id id).0 same))
    | inr other ↦ elim (Bool-cases (str_eq e.event_hash h)) [
      | inl same ↦ (e, inl refl, inr ((str_eq_iff e.event_hash h).0 same))
      | inr other' ↦
          let (old, there, same) = taken_by id h es (rw (other, other', taken) at t) in
          (old, inr there, same)
    ]
  ]

  not_taken :
      (id h : String) (es : List (Event P))
      → taken id h es ≡ false
      → (old : Event P) → In old es
      → (old.core.event_id ≢ id) × (old.event_hash ≢ h)
  unfolding taken
  not_taken id h [] t old there = absurd there
  not_taken id h (e ∷ es) t old (inl same) =
      subst (λ (x : Event P). (x.core.event_id ≢ id) × (x.event_hash ≢ h)) (sym same)
        (ground (arith, str_eq_iff e.core.event_id id, str_eq_iff e.event_hash h, t))
  not_taken id h (e ∷ es) t old (inr there) = not_taken id h es (ground (arith, t)) old there

module _ {P : Type 0} (hash : Core P → String) where
  verify_from-IsChain :
      (previous : String) (count n : ℕ) (es : List (Event P))
      → verify_from hash previous count es ≡ ok n
      → IsChain hash previous es × (n ≡ count + length es)
  unfolding verify_from
  verify_from-IsChain previous count n [] h = ground arith
  verify_from-IsChain previous count n (e ∷ es) h = grind (
    arith,
    verify_from-IsChain e.event_hash (count + 1) n es,
    str_eq_iff e.core.previous_hash previous,
    str_eq_iff (hash e.core) e.event_hash,
  )

  IsChain-verify_from :
      (previous : String) (count : ℕ) (es : List (Event P))
      → IsChain hash previous es
      → verify_from hash previous count es ≡ ok (count + length es)
  unfolding verify_from
  IsChain-verify_from previous count [] h = ground arith
  IsChain-verify_from previous count (e ∷ es) h = grind (
    arith,
    IsChain-verify_from e.event_hash (count + 1) es,
    str_eq_iff e.core.previous_hash previous,
    str_eq_iff (hash e.core) e.event_hash,
  )

  IsChain-append :
      (previous : String) (es : List (Event P)) (e : Event P)
      → IsChain hash previous es
      → e.core.previous_hash ≡ last_hash previous es
      → e.event_hash ≡ hash e.core
      → IsChain hash previous (es ++ e ∷ [])
  unfolding last_hash
  IsChain-append previous [] e h link hashed = (link, hashed, tt)
  IsChain-append previous (x ∷ es) e h link hashed =
      (h.0, h.1, IsChain-append x.event_hash es e h.2 link hashed)

  -- A successful verification is of a chain, and counts its events.
  pub verify_event_chain_iff :
      (es : List (Event P)) (n : ℕ)
      → (verify_event_chain hash es ≡ ok n) ↔ (IsChain hash genesis es × (n ≡ length es))
  unfolding verify_event_chain
  verify_event_chain_iff es n = (
    λ h. grind (arith, verify_from-IsChain genesis 0 n es h),
    λ h. IsChain-verify_from genesis 0 es h.0 ∙ ap ok (omega arith),
  )

  -- What a call of append_event on a ledger of n events has done: the event that is added has the
  -- arguments' fields and is new, or an event of the ledger has its id or its hash.
  abbrev pub Appends :
      String
      → String
      → Option String
      → P
      → Instant
      → ℕ
      → List (Event P)
      → Result LedgerError (Event P) × List (Event P)
      → Type 0
  Appends id kind aggregate payload now n es (ok e, es') =
      (e.core ≡ core_after id kind aggregate payload now es)
      × (e.event_hash ≡ hash e.core)
      × (es' ≡ es ++ e ∷ [])
      × (verify_event_chain hash es' ≡ ok (n + 1))
      × ((old : Event P) → In old es → (old.core.event_id ≢ id) × (old.event_hash ≢ e.event_hash))
  Appends id kind aggregate payload now n es (err _, es') =
      (es' ≡ es)
      × ((old : Event P) × In old es
          × ((old.core.event_id ≡ id)
              ⊎ (old.event_hash ≡ hash (core_after id kind aggregate payload now es))))

  -- Appending to a ledger that verifies adds one event at the end, with the given fields, the hash of
  -- the last event as its link and its own hash, no event of the ledger having its id or its hash, and
  -- the ledger still verifies; or it raises, the ledger stays, and one of its events has that id or
  -- that hash.
  pub append_event-Appends :
      (id kind : String) (aggregate : Option String) (payload : P) (now : Instant)
      (es : List (Event P)) (n : ℕ)
      → verify_event_chain hash es ≡ ok n
      → Appends id kind aggregate payload now n es
          (append_event hash id kind aggregate payload now es)
  unfolding append_event new_event
  append_event-Appends id kind aggregate payload now es n verified =
      let e = new_event hash id kind aggregate payload now es in
      let chain = (verify_event_chain_iff es n).0 verified in
      elim (Bool-cases (taken id e.event_hash es)) [
        | inl repeated ↦ rw repeated (refl, taken_by id e.event_hash es repeated)
        | inr fresh ↦ rw fresh (
          refl,
          refl,
          refl,
          (verify_event_chain_iff (es ++ e ∷ []) (n + 1)).1 (
            IsChain-append genesis es e chain.0 refl refl,
            omega (arith, chain.1, length-append {0} es (e ∷ [])),
          ),
          not_taken id e.event_hash es fresh,
        )
      ]
