-- ===== src/Predict/Policy/Best.antt =====
-- Which of two trades `decide` takes.
use japan_agent.Base.{◌≡◌, Bool, none, Result, ok, if◌then◌else◌, ◌⊎◌, inl, inr, Bool-cases, arith}
use japan_agent.Base.Decimal.{Decimal, lt}
use japan_agent.Base.Decimal.Order.{Lt, Le, lt→Lt, lt→Le}
use japan_agent.Predict.Outcome.{yes, no}
use japan_agent.Predict.Params.{PolicyParams}
use japan_agent.Predict.Policy.{
  PolicyInputs, Trade, Decided, traded, PolicyError, edge, side_probabilities, book_of, gate,
}
use japan_agent.Predict.Policy.Decide.{
  try_book, second_is_better, better, choose, decide_open, decide,
}

-- The first of two trades stays unless the second makes a greater edge.
Prefers : Trade → Decimal → Trade → Decimal → Trade → Type 0
Prefers a ea b eb t = ((t ≡ a) × Le eb ea) ⊎ ((t ≡ b) × Lt ea eb)

second_only_if_greater :
    (a : Trade) (ea : Decimal) (b : Trade) (eb : Decimal)
    → a.outcome ≡ yes
    → second_is_better a ea b eb ≡ lt ea eb
unfolding second_is_better
second_only_if_greater a ea b eb h = rw h (ground arith)

chosen :
    (c : Bool) (a b t : Trade)
    → ◌≡◌ {A = Result PolicyError Decided} (ok (traded (if c then b else a))) (ok (traded t))
    → t ≡ (if c then b else a)
chosen c a b t h = cc

better-Prefers :
    (a b : Trade) (ea eb : Decimal) {t : Trade}
    → a.outcome ≡ yes
    → edge a ≡ ok ea
    → edge b ≡ ok eb
    → better a b ≡ ok (traded t)
    → Prefers a ea b eb t
unfolding better Prefers
better-Prefers a b ea eb {t} h ka kb e =
    let same : t ≡ (if lt ea eb then b else a) =
      chosen (lt ea eb) a b t (rw (second_only_if_greater a ea b eb h) at (rw (ka, kb) at e)) in
    elim (Bool-cases (lt ea eb)) [
      | inl greater ↦ inr (rw greater at same, lt→Lt ea eb greater)
      | inr most ↦ inl (rw most at same, lt→Le ea eb most)
    ]

-- If both sides would trade, `decide` takes the trade of YES if its edge is no smaller than that of
-- the trade of NO, and the trade of NO if its edge is greater.
pub decide-Prefers :
    (inputs : PolicyInputs) (params : PolicyParams) (q_yes q_no ea eb : Decimal) (a b : Trade)
    {t : Trade}
    → side_probabilities inputs.forecast params.probability ≡ ok (q_yes, q_no)
    → try_book (book_of yes inputs.books) q_yes inputs params ≡ ok (traded a)
    → try_book (book_of no inputs.books) q_no inputs params ≡ ok (traded b)
    → a.outcome ≡ yes
    → edge a ≡ ok ea
    → edge b ≡ ok eb
    → gate inputs params ≡ none
    → decide inputs params ≡ ok (traded t)
    → ((t ≡ a) × Le eb ea) ⊎ ((t ≡ b) × Lt ea eb)
unfolding decide decide_open choose Prefers
decide-Prefers inputs params q_yes q_no ea eb a b known tried tried' h ka kb opened e =
    better-Prefers a b ea eb h ka kb
      (rw tried' at (rw tried at (rw known at (rw (opened, decide) at e))))
