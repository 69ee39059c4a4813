-- ===== src/Predict/Policy/Ready.antt =====
-- What the gate of the paper policy asks.
use japan_agent.Base.{
  ◌≡◌, refl, subst, ◌≤◌, ◌+◌, ℕ, sym, ◌∙◌, Bool, true, false, not, ◌&&◌, none, some, Option,
  is_some, List, [], ◌∷◌, All, String, ltb→le, le→ltb, str_eq, str_eq_iff, ◌↔◌, inl, inr,
  Option-cases, not-true, if◌then◌else◌, arith,
}
use mathlib.Core.Bool.{true≢false}
use mathlib.Core.Option.{some-injective}
use japan_agent.Time.{Instant, hours, seconds}
use japan_agent.Predict.Outcome.{Outcome}
use japan_agent.Predict.Gamma.{fee_rate}
use japan_agent.Predict.Params.{PolicyParams, Confidence, confidence_rank, confidence_of}
use japan_agent.Predict.Policy.{
  SideBook, PolicyInputs, Reason, below_confidence, closes_soon, both_books, book_refusal,
  books_refusal, gate,
}

-- A book no older than the limit, not of the future, with a fee rate where it has fees.
pub record IsUsable (now : Instant) (max_age : ℕ) (entry : Outcome × SideBook) : Type 0 where
  pub fresh : now ≤ entry.1.fetched_at + seconds max_age
  pub past : entry.1.fetched_at ≤ now
  pub rated : entry.1.fees_enabled && not (is_some (fee_rate entry.1.fee_schedule)) ≡ false

-- A stated confidence of at least a rank.
pub IsConfident : Option String → ℕ → Type 0
IsConfident stated minimum =
    (text : String) × (c : Confidence) × (stated ≡ some text)
    × (confidence_of text ≡ some c)
    × (minimum ≤ confidence_rank c)

-- A known end date, no earlier than an instant.
pub ClosesAfter : Instant → Option Instant → Type 0
ClosesAfter limit date = (end : Instant) × (date ≡ some end) × (limit ≤ end)

-- Every condition for a trade that does not depend on the depth of a book.
pub record IsReady (inputs : PolicyInputs) (params : PolicyParams) : Type 0 where
  pub forecast_made : inputs.forecast.abstained ≡ false
  pub same_rules : inputs.forecast.rules_hash ≡ inputs.current_rules_hash
  pub eligible : inputs.eligible ≡ true
  pub unresolved : inputs.resolution_started ≡ false
  pub untraded : inputs.already_traded ≡ false
  pub confident : IsConfident inputs.forecast.confidence (confidence_rank params.min_confidence)
  pub open_long_enough :
      ClosesAfter (inputs.now + hours params.min_hours_to_close) inputs.forecast.end_date
  pub both : both_books inputs.books ≡ true
  pub usable : All (IsUsable inputs.now params.max_book_age_seconds) inputs.books

below_confidence-IsConfident :
    (stated : Option String) (minimum : ℕ)
    → below_confidence stated minimum ≡ false
    → IsConfident stated minimum
unfolding below_confidence IsConfident
below_confidence-IsConfident none minimum h = absurd cc
below_confidence-IsConfident (some text) minimum h = elim (Option-cases (confidence_of text)) [
  | inl other ↦ absurd (true≢false (rw (other, below_confidence) at h))
  | inr (c, known) ↦ (text, c, refl, known, ltb→le _ _ (rw (known, below_confidence) at h))
]

IsConfident-below_confidence :
    (stated : Option String) (minimum : ℕ)
    → IsConfident stated minimum
    → below_confidence stated minimum ≡ false
unfolding below_confidence IsConfident
IsConfident-below_confidence stated minimum (text, c, given, known, enough) =
    rw (given, below_confidence, known) (le→ltb (confidence_rank c) minimum enough)

closes_soon-ClosesAfter :
    (date : Option Instant) (now : Instant) (n : ℕ)
    → (closes_soon date now n ≡ false) ↔ ClosesAfter (now + hours n) date
unfolding closes_soon ClosesAfter
closes_soon-ClosesAfter none now n = (λ h. absurd (true≢false h), λ (end, e, _). absurd (cc e))
closes_soon-ClosesAfter (some end) now n = (
  λ h. (end, refl, ltb→le _ _ h),
  λ (other, e, h). le→ltb _ _ (subst (λ (t : ℕ). now + hours n ≤ t) (sym (some-injective _ _ e)) h),
)

some-none : {r : Reason} → some r ≡ none → ⊥
some-none h = cc

unless :
    (b : Bool) (r : Reason) (rest : Option Reason)
    → ((if b then some r else rest) ≡ none)
    → (b ≡ false) × (rest ≡ none)
unless true r rest h = absurd (some-none h)
unless false r rest h = (refl, h)

book_refusal_iff :
    (now : Instant) (max_age : ℕ) (entry : Outcome × SideBook)
    → (book_refusal now max_age entry.1 ≡ none) ↔ IsUsable now max_age entry
unfolding book_refusal
book_refusal_iff now max_age entry = (
  λ h. record { fresh = ground arith; past = ground arith; rated = ground arith },
  λ u. ground (arith, u.fresh, u.past, u.rated),
)

books_refusal_iff :
    (now : Instant) (max_age : ℕ) (books : List (Outcome × SideBook))
    → (books_refusal now max_age books ≡ none) ↔ All (IsUsable now max_age) books
unfolding books_refusal
books_refusal_iff now max_age [] = (λ _. tt, λ _. refl)
books_refusal_iff now max_age ((key, book) ∷ books) =
    elim (Option-cases (book_refusal now max_age book)) [
      | inl fine ↦ (
        λ h. (
          (book_refusal_iff now max_age (key, book)).0 fine,
          (books_refusal_iff now max_age books).0 (rw (fine, books_refusal) at h),
        ),
        λ (u, us). rw (fine, books_refusal) ((books_refusal_iff now max_age books).1 us),
      )
      | inr (reason, bad) ↦ (
        λ h. absurd (some-none (rw (bad, books_refusal) at h)),
        λ (u, us). absurd (some-none (sym bad ∙ (book_refusal_iff now max_age (key, book)).1 u)),
      )
    ]

gate-IsReady :
    (inputs : PolicyInputs) (params : PolicyParams)
    → gate inputs params ≡ none
    → IsReady inputs params
unfolding gate
gate-IsReady inputs params h =
    let (made, h1) = unless inputs.forecast.abstained _ _ h in
    let (same, h2) =
      unless (not (str_eq inputs.forecast.rules_hash inputs.current_rules_hash)) _ _ h1 in
    let (listed, h3) = unless (not inputs.eligible) _ _ h2 in
    let (unresolved, h4) = unless inputs.resolution_started _ _ h3 in
    let (untraded, h5) = unless inputs.already_traded _ _ h4 in
    let (confident, h6) =
      unless (below_confidence inputs.forecast.confidence (confidence_rank params.min_confidence)) _
        _ h5 in
    let (open_long, h7) =
      unless (closes_soon inputs.forecast.end_date inputs.now params.min_hours_to_close) _ _ h6 in
    let (both, h8) = unless (not (both_books inputs.books)) _ _ h7 in
    record {
      forecast_made = made;
      same_rules = (str_eq_iff _ _).0 (not-true _ same);
      eligible = not-true _ listed;
      unresolved = unresolved;
      untraded = untraded;
      confident = below_confidence-IsConfident _ _ confident;
      open_long_enough = (closes_soon-ClosesAfter _ _ _).0 open_long;
      both = not-true _ both;
      usable = (books_refusal_iff inputs.now params.max_book_age_seconds inputs.books).0 h8;
    }

IsReady-gate :
    (inputs : PolicyInputs) (params : PolicyParams)
    → IsReady inputs params
    → gate inputs params ≡ none
unfolding gate
IsReady-gate inputs params r =
    rw
      (
        r.forecast_made,
        (str_eq_iff _ _).1 r.same_rules,
        r.eligible,
        r.unresolved,
        r.untraded,
        IsConfident-below_confidence _ _ r.confident,
        (closes_soon-ClosesAfter _ _ _).1 r.open_long_enough,
        r.both,
      )
      ((books_refusal_iff inputs.now params.max_book_age_seconds inputs.books).1 r.usable)

-- The gate has no refusal exactly when the forecast was made and its rules are the market's current
-- ones, the market is eligible, not yet resolving and not yet traded, the confidence is high enough,
-- the end date far enough, and there is a book of each side and of no other, each of them no older
-- than the limit, not of the future, and with a fee rate if it has fees.
pub gate_iff :
    (inputs : PolicyInputs) (params : PolicyParams)
    → (gate inputs params ≡ none) ↔ IsReady inputs params
gate_iff inputs params = (gate-IsReady inputs params, IsReady-gate inputs params)
