-- ===== src/Predict/Policy/Decide.antt =====
-- predict_agent/policy.py: `_try_side` and `decide`.
use japan_agent.Base.{
  Bool, true, false, not, ◌&&◌, ◌||◌, Option, none, some, List, [], ◌∷◌, Result, ok, err, ◌>>=◌,
  map_err, if◌then◌else◌,
}
use japan_agent.Base.Decimal.{Decimal, add, sub, mul, lt, le, eq, min_of}
use japan_agent.Predict.Outcome.{yes, no, same_outcome}
use japan_agent.Predict.Gamma.{fee_rate}
use japan_agent.Predict.Params.{PolicyParams}
use japan_agent.Predict.Fills.{
  AskLevel, Walk, FillFailure, fill_error, arithmetic as fill_arithmetic, one, nought,
  fee_per_share, walk_asks, cost,
}
use japan_agent.Predict.Policy.{
  SideBook, PolicyInputs, Trade, Reason, no_depth, no_edge, no_budget, below_min_order,
  no_edge_after_fill, unusable_book, Decided, traded, refused, PolicyError, missing_rate,
  missing_book, arithmetic, edge, side_probabilities, budget_for, book_of, gate,
}

-- `_rate`
unfoldable pub book_rate : SideBook → Result PolicyError Decimal
book_rate book =
    if not book.fees_enabled
    then ok nought
    else elim (fee_rate book.fee_schedule) [ none ↦ err missing_rate | some rate ↦ ok rate ]

-- `min(level.price for level in asks)`, from the first price on
unfoldable pub least_price : Decimal → List AskLevel → Decimal
least_price least [] = least
least_price least (level ∷ levels) = least_price (min_of least level.price) levels

-- `Trade(…)`
abbrev pub offer : SideBook → Decimal → Decimal → Decimal → Walk → Trade
offer book q best_ask budget walk = record {
  outcome = book.outcome;
  snapshot_id = book.snapshot_id;
  q = q;
  best_ask = best_ask;
  budget = budget;
  walk = walk;
}

-- What a finished walk comes to.
unfoldable pub judge :
    SideBook → Decimal → Decimal → Decimal → PolicyParams → Walk → Result PolicyError Decided
unfolding edge cost
judge book q best_ask budget params walk =
    let trade = offer book q best_ask budget walk in
    if le walk.shares nought
    then ok (refused no_depth)
    else if lt walk.shares book.min_order_size || lt (cost walk) book.min_order_size
    then ok (refused below_min_order)
    else map_err arithmetic (edge trade) >>= λ e.
        ok (if lt e params.min_edge then refused no_edge_after_fill else traded trade)

-- A FillError refuses; an error of the arithmetic is raised.
unfoldable pub judge_walk :
    SideBook
    → Decimal
    → Decimal
    → Decimal
    → PolicyParams
    → Result FillFailure Walk
    → Result PolicyError Decided
unfolding judge
judge_walk book q best_ask budget params (ok walk) = judge book q best_ask budget params walk
judge_walk book q best_ask budget params (err (fill_error code)) = ok (refused (unusable_book code))
judge_walk book q best_ask budget params (err (fill_arithmetic e)) = err (arithmetic e)

-- The part of `_try_side` after the budget.
unfoldable pub spend :
    SideBook → Decimal → Decimal → Decimal → PolicyParams → Decimal → Result PolicyError Decided
unfolding judge_walk
spend book q best_ask rate params budget =
    if le budget nought
    then ok (refused no_budget)
    else judge_walk book q best_ask budget params (
        walk_asks book.asks budget rate (mul best_ask (add one params.max_slippage)) book.tick_size)

-- The part of `_try_side` after the best ask.
unfoldable pub try_at :
    SideBook
    → Decimal
    → PolicyInputs
    → PolicyParams
    → Decimal
    → Decimal
    → Result PolicyError Decided
unfolding spend
try_at book q inputs params best_ask rate =
    if lt (sub (sub q best_ask) (fee_per_share best_ask rate)) params.min_edge
    then ok (refused no_edge)
    else map_err arithmetic (budget_for q best_ask inputs params)
      >>= spend book q best_ask rate params

unfoldable pub try_asks :
    SideBook → Decimal → PolicyInputs → PolicyParams → List AskLevel → Result PolicyError Decided
unfolding book_rate least_price try_at
try_asks book q inputs params [] = ok (refused no_depth)
try_asks book q inputs params (level ∷ levels) =
    book_rate book >>= try_at book q inputs params (least_price level.price levels)

-- `_try_side`
unfoldable pub try_side :
    SideBook → Decimal → PolicyInputs → PolicyParams → Result PolicyError Decided
unfolding try_asks
try_side book q inputs params = try_asks book q inputs params book.asks

-- `_try_side(inputs.books[outcome], …)`
unfoldable pub try_book :
    Option SideBook → Decimal → PolicyInputs → PolicyParams → Result PolicyError Decided
unfolding try_side
try_book none q inputs params = err missing_book
try_book (some book) q inputs params = try_side book q inputs params

-- Whether the second of two trades has the greater key `(edge, outcome == "YES")`.
unfoldable pub second_is_better : Trade → Decimal → Trade → Decimal → Bool
second_is_better a edge_a b edge_b =
    lt edge_a edge_b
    || (eq edge_a edge_b && (same_outcome b.outcome yes && not (same_outcome a.outcome yes)))

-- `max(trades, key=…)` of two trades
unfoldable pub better : Trade → Trade → Result PolicyError Decided
unfolding second_is_better edge
better a b = map_err arithmetic (edge a) >>= λ edge_a. map_err arithmetic (edge b) >>= λ edge_b.
    ok (traded (if second_is_better a edge_a b edge_b then b else a))

abbrev pub is_no_edge : Reason → Bool
is_no_edge no_edge = true
is_no_edge _ = false

-- The refusal that says most.
unfoldable pub telling : Reason → Reason → Reason
telling first second =
    if not (is_no_edge first) then first else if not (is_no_edge second) then second else first

unfoldable pub choose : Decided → Decided → Result PolicyError Decided
unfolding better telling
choose (traded a) (traded b) = better a b
choose (traded a) (refused _) = ok (traded a)
choose (refused _) (traded b) = ok (traded b)
choose (refused first) (refused second) = ok (refused (telling first second))

-- `decide`, once the gate is open.
unfoldable pub decide_open : PolicyInputs → PolicyParams → Result PolicyError Decided
unfolding try_book choose
decide_open inputs params = side_probabilities inputs.forecast params.probability >>= λ q.
    try_book (book_of yes inputs.books) q.0 inputs params >>= λ on_yes.
    try_book (book_of no inputs.books) q.1 inputs params >>= λ on_no. choose on_yes on_no

unfoldable pub decide : PolicyInputs → PolicyParams → Result PolicyError Decided
unfolding decide_open
decide inputs params = elim (gate inputs params) [
  | some reason ↦ ok (refused reason)
  | none ↦ decide_open inputs params
]
