-- ===== src/Predict/Policy/Sound.antt =====
-- What a trade of the paper policy satisfies.
use japan_agent.Base.{
  ◌≡◌, refl, subst, sym, ◌∙◌, ap, Bool, true, false, ◌||◌, none, some, List, [], ◌∷◌, Result, ok,
  err, map_err, map_err-eq-ok, >>=-eq-ok, ok-injective, if◌then◌else◌, ◌⊎◌, inl, inr, Option-cases,
  Result-cases, arith,
}
use japan_agent.Base.Decimal.{Decimal, sub, mul, add, lt, le}
use japan_agent.Base.Decimal.Order.{Le, IsPositive, lt→Le, le→Lt}
use japan_agent.Predict.Outcome.{Outcome, yes, no}
use japan_agent.Predict.Params.{PolicyParams}
use japan_agent.Predict.Fills.{
  AskLevel, Walk, FillFailure, fill_error, arithmetic as fill_arithmetic, one, nought,
  fee_per_share, walk_asks, cost,
}
use japan_agent.Predict.Policy.{
  SideBook, PolicyInputs, Trade, Reason, Decided, traded, refused, PolicyError, arithmetic, edge,
  side_probabilities, budget_for, book_of, gate,
}
use japan_agent.Predict.Policy.Decide.{
  book_rate, least_price, offer, judge, judge_walk, spend, try_at, try_asks, try_side, try_book,
  better, choose, decide_open, decide, second_is_better,
}

-- A trade on a book, for the probability q of its side: its walk is the book's for its budget, and
-- its order and its edge are large enough.
pub record IsSound (inputs : PolicyInputs) (params : PolicyParams) (book : SideBook) (q : Decimal)
    (t : Trade) : Type 0 where
  pub rate : Decimal
  pub edge_made : Decimal
  pub same_side : t.outcome ≡ book.outcome
  pub same_snapshot : t.snapshot_id ≡ book.snapshot_id
  pub same_q : t.q ≡ q
  pub rated : book_rate book ≡ ok rate
  pub budgeted : budget_for q t.best_ask inputs params ≡ ok t.budget
  pub funded : IsPositive t.budget
  pub walked :
      walk_asks book.asks t.budget rate
        (mul t.best_ask (add one params.max_slippage))
        book.tick_size
      ≡ ok t.walk
  pub shares_enough : Le book.min_order_size t.walk.shares
  pub cost_enough : Le book.min_order_size (cost t.walk)
  pub edge_known : edge t ≡ ok edge_made
  pub edge_enough : Le params.min_edge edge_made

not_refused :
    (b : Bool) (reason : Reason) (rest : Result PolicyError Decided) {t : Trade}
    → (if b then ok (refused reason) else rest) ≡ ok (traded t)
    → (b ≡ false) × (rest ≡ ok (traded t))
not_refused true reason rest h = absurd cc
not_refused false reason rest h = (refl, h)

-- What `judge` grants of its trade.
record IsJudged (book : SideBook) (q best_ask budget : Decimal) (params : PolicyParams)
    (walk : Walk) (t : Trade) : Type 0 where
  pub edge_made : Decimal
  pub same : t ≡ offer book q best_ask budget walk
  pub shares_enough : Le book.min_order_size walk.shares
  pub cost_enough : Le book.min_order_size (cost walk)
  pub edge_known : edge t ≡ ok edge_made
  pub edge_enough : Le params.min_edge edge_made

no_value : {e : PolicyError} {d : Decided} → ◌≡◌ {A = Result PolicyError Decided} (err e) (ok d) → ⊥
no_value h = cc

no_trade :
    {r : Reason} {t : Trade}
    → ◌≡◌ {A = Result PolicyError Decided} (ok (refused r)) (ok (traded t))
    → ⊥
no_trade h = cc

traded-injective : {s t : Trade} → traded s ≡ traded t → s ≡ t
traded-injective h = cc

final :
    (b : Bool) (reason : Reason) (s : Trade) {t : Trade}
    → ◌≡◌ {A = Result PolicyError Decided}
        (ok (if b then refused reason else traded s))
        (ok (traded t))
    → (b ≡ false) × (s ≡ t)
final true reason s h = absurd cc
final false reason s h = (refl, cc)

or_false : (a b : Bool) → a || b ≡ false → (a ≡ false) × (b ≡ false)
or_false a b h = ground arith

judge-IsJudged :
    (book : SideBook) (q best_ask budget : Decimal) (params : PolicyParams) (walk : Walk)
    {t : Trade}
    → judge book q best_ask budget params walk ≡ ok (traded t)
    → IsJudged book q best_ask budget params walk t
unfolding judge
judge-IsJudged book q best_ask budget params walk {t} e =
    let (_, e1) = not_refused (le walk.shares nought) _ _ e in
    let (large, e2) =
      not_refused (lt walk.shares book.min_order_size || lt (cost walk) book.min_order_size) _ _
        e1 in
    let (few, cheap) = or_false _ _ large in
    let (made, known, e3) =
      >>=-eq-ok (map_err arithmetic (edge (offer book q best_ask budget walk))) _ e2 in
    let (enough, same) = final (lt made params.min_edge) _ _ e3 in
    record {
      edge_made = made;
      same = sym same;
      shares_enough = lt→Le _ _ few;
      cost_enough = lt→Le _ _ cheap;
      edge_known = subst (λ s. edge s ≡ ok made) same (map_err-eq-ok arithmetic _ known);
      edge_enough = lt→Le _ _ enough;
    }

spend-IsSound :
    (inputs : PolicyInputs) (params : PolicyParams) (book : SideBook)
    (q best_ask rate budget : Decimal) {t : Trade}
    → book_rate book ≡ ok rate
    → budget_for q best_ask inputs params ≡ ok budget
    → spend book q best_ask rate params budget ≡ ok (traded t)
    → IsSound inputs params book q t
unfolding spend
spend-IsSound inputs params book q best_ask rate budget {t} rated budgeted e =
    let (some_budget, e1) = not_refused (le budget nought) _ _ e in
    elim (Result-cases walking) [
      | inl (walk, walked) ↦
          let judged = judge-IsJudged book q best_ask budget params walk (rw walked at e1) in
          subst (IsSound inputs params book q) (sym judged.same) (record {
            rate = rate;
            edge_made = judged.edge_made;
            same_side = refl;
            same_snapshot = refl;
            same_q = refl;
            rated = rated;
            budgeted = budgeted;
            funded = le→Lt budget nought some_budget;
            walked = walked;
            shares_enough = judged.shares_enough;
            cost_enough = judged.cost_enough;
            edge_known = subst (λ s. edge s ≡ ok judged.edge_made) judged.same judged.edge_known;
            edge_enough = judged.edge_enough;
          })
      | inr (failure, failed) ↦ absurd (not_judged failure (rw failed at e1))
    ]
  where
    walking : Result FillFailure Walk
    walking =
        walk_asks book.asks budget rate (mul best_ask (add one params.max_slippage)) book.tick_size

    not_judged :
        (f : FillFailure) → judge_walk book q best_ask budget params (err f) ≡ ok (traded t) → ⊥
    not_judged (fill_error code) h = cc
    not_judged (fill_arithmetic d) h = cc

try_asks-IsSound :
    (inputs : PolicyInputs) (params : PolicyParams) (book : SideBook) (q : Decimal)
    (asks : List AskLevel) {t : Trade}
    → try_asks book q inputs params asks ≡ ok (traded t)
    → IsSound inputs params book q t
unfolding try_asks try_at
try_asks-IsSound inputs params book q [] e = absurd cc
try_asks-IsSound inputs params book q (level ∷ levels) e =
    let best = least_price level.price levels in
    let (rate, rated, e1) = >>=-eq-ok (book_rate book) _ e in
    let (_, e2) =
      not_refused (lt (sub (sub q best) (fee_per_share best rate)) params.min_edge) _ _ e1 in
    let (budget, budgeted, e3) =
      >>=-eq-ok (map_err arithmetic (budget_for q best inputs params)) _ e2 in
    spend-IsSound inputs params book q best rate budget rated (map_err-eq-ok arithmetic _ budgeted)
      e3

-- The book of a side gave a trade.
pub Offers : PolicyInputs → PolicyParams → Outcome → Decimal → Trade → Type 0
Offers inputs params side q t =
    (book : SideBook) × (book_of side inputs.books ≡ some book) × IsSound inputs params book q t

try_book-Offers :
    (inputs : PolicyInputs) (params : PolicyParams) (side : Outcome) (q : Decimal) {t : Trade}
    → try_book (book_of side inputs.books) q inputs params ≡ ok (traded t)
    → Offers inputs params side q t
unfolding Offers try_book try_side
try_book-Offers inputs params side q e = elim (Option-cases (book_of side inputs.books)) [
  | inl missing ↦ absurd (no_value (rw missing at e))
  | inr (book, found) ↦
      (book, found, try_asks-IsSound inputs params book q book.asks (rw found at e))
]

picked :
    (c : Bool) (a b : Trade) {t : Trade}
    → ◌≡◌ {A = Result PolicyError Decided} (ok (traded (if c then b else a))) (ok (traded t))
    → (traded a ≡ traded t) ⊎ (traded b ≡ traded t)
picked true a b h = inr (ok-injective h)
picked false a b h = inl (ok-injective h)

better-cases :
    (a b : Trade) {t : Trade}
    → better a b ≡ ok (traded t)
    → (traded a ≡ traded t) ⊎ (traded b ≡ traded t)
unfolding better
better-cases a b e =
    let (ea, _, e1) = >>=-eq-ok (map_err arithmetic (edge a)) _ e in
    let (eb, _, e2) = >>=-eq-ok (map_err arithmetic (edge b)) _ e1 in
    picked (second_is_better a ea b eb) a b e2

choose-cases :
    (a b : Decided) {t : Trade} → choose a b ≡ ok (traded t) → (a ≡ traded t) ⊎ (b ≡ traded t)
unfolding choose
choose-cases (traded a) (traded b) e = better-cases a b e
choose-cases (traded a) (refused _) e = inl (ok-injective e)
choose-cases (refused _) (traded b) e = inr (ok-injective e)
choose-cases (refused _) (refused _) e = absurd cc

-- What `decide` grants of its trade: no refusal of the gate, and a sound trade on the book of YES or
-- on that of NO, for the side's probability.
pub record IsGranted (inputs : PolicyInputs) (params : PolicyParams) (t : Trade) : Type 0 where
  pub gate_open : gate inputs params ≡ none
  pub q_yes : Decimal
  pub q_no : Decimal
  pub probabilities : side_probabilities inputs.forecast params.probability ≡ ok (q_yes, q_no)
  pub offered : Offers inputs params yes q_yes t ⊎ Offers inputs params no q_no t

-- If `decide` gives a trade, the gate has no refusal, and the trade is on the book of YES or on that
-- of NO: it is what the walk of that book buys for the budget, which is positive; the order is no
-- smaller than the minimum in shares and in cost, and the edge that it makes, for the side's
-- probability, is at least the policy's smallest.
pub decide-IsGranted :
    (inputs : PolicyInputs) (params : PolicyParams) {t : Trade}
    → decide inputs params ≡ ok (traded t)
    → IsGranted inputs params t
unfolding decide decide_open
decide-IsGranted inputs params e = elim (Option-cases (gate inputs params)) [
  | inr (reason, closed) ↦ absurd (no_trade (rw (closed, decide) at e))
  | inl opened ↦
      let (q, known, e1) =
        >>=-eq-ok (side_probabilities inputs.forecast params.probability) _
          (rw (opened, decide) at e) in
      let (on_yes, tried, e2) =
        >>=-eq-ok (try_book (book_of yes inputs.books) q.0 inputs params) _ e1 in
      let (on_no, tried', e3) =
        >>=-eq-ok (try_book (book_of no inputs.books) q.1 inputs params) _ e2 in
      record {
        gate_open = opened;
        q_yes = q.0;
        q_no = q.1;
        probabilities = known;
        offered = elim (choose-cases on_yes on_no e3) [
          | inl same ↦ inl (try_book-Offers inputs params yes q.0 (tried ∙ ap ok same))
          | inr same ↦ inr (try_book-Offers inputs params no q.1 (tried' ∙ ap ok same))
        ];
      }
]
