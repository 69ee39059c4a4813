-- ===== src/Predict/Fills.antt =====
-- predict_agent/fills.py: a paper fill walks a recorded ask book from the cheapest level up.
pub mod Within
pub mod Sums
use japan_agent.Base.{
  ◌≡◌, refl, Bool, not, ◌&&◌, ◌||◌, List, [], ◌∷◌, ◌++◌, map, Result, ok, err, ◌>>=◌, map_err,
  if◌then◌else◌,
}
use japan_agent.Base.Decimal.{
  Decimal, dec, add, sub, mul, div, lt, le, eq, min_of, sum_from, quantize, round_down,
  DecimalError,
}
use japan_agent.Base.Decimal.Remainder.{remainder}
use japan_agent.Base.Sort.{sort}

pub data FillCode : Type 0 where
  tick_mismatch bad_book bad_budget fee_unknown : FillCode

-- What a walk raises: a FillError, or an error of the decimal arithmetic.
pub data FillFailure : Type 0 where
  fill_error : FillCode → FillFailure
  arithmetic : DecimalError → FillFailure

pub record AskLevel : Type 0 where
  pub price : Decimal
  pub size : Decimal

pub record Fill : Type 0 where
  pub price : Decimal
  pub shares : Decimal

pub record Walk : Type 0 where
  pub fills : List Fill
  pub shares : Decimal
  pub notional : Decimal
  pub fee : Decimal

unfoldable pub cost : Walk → Decimal
cost w = add w.notional w.fee

unfoldable pub cost_per_share : Walk → Result DecimalError Decimal
unfolding cost
cost_per_share w = div (cost w) w.shares

unfoldable pub average_price : Walk → Result DecimalError Decimal
average_price w = div w.notional w.shares

abbrev pub one : Decimal
one = dec 1 0

abbrev pub nought : Decimal
nought = dec 0 0

unfoldable pub fee_per_share : Decimal → Decimal → Decimal
fee_per_share price rate = mul (mul rate price) (sub one price)

unfoldable pub level_fee : Decimal → Decimal → Decimal → Decimal
unfolding fee_per_share
level_fee shares price rate = mul shares (fee_per_share price rate)

unfoldable pub round_shares : Decimal → Result DecimalError Decimal
round_shares quantity = quantize quantity 2 round_down

-- The checks of one level of the book.
unfoldable pub check_level : Decimal → AskLevel → Result FillFailure (Unit {0})
check_level tick level =
    if not (lt nought level.price && lt level.price one) || le level.size nought
    then err (fill_error bad_book)
    else elim (remainder level.price tick) [
      | err e ↦ err (arithmetic e)
      | ok r ↦ if eq r nought then ok tt else err (fill_error tick_mismatch)
    ]

unfoldable pub check_levels : Decimal → List AskLevel → Result FillFailure (Unit {0})
unfolding check_level
check_levels tick [] = ok tt
check_levels tick (level ∷ rest) = check_level tick level >>= λ _. check_levels tick rest

abbrev pub cheaper : AskLevel → AskLevel → Bool
cheaper a b = lt a.price b.price

unfoldable pub sorted_asks : List AskLevel → Decimal → Result FillFailure (List AskLevel)
unfolding check_levels
sorted_asks asks tick =
    if le tick nought
    then err (fill_error tick_mismatch)
    else check_levels tick asks >>= λ _. ok (sort cheaper asks)

-- How many shares the rest of the budget takes from a level.
unfoldable pub take_of : Decimal → AskLevel → Decimal → Result DecimalError Decimal
unfolding fee_per_share round_shares
take_of rate level remaining = round_shares level.size >>= λ size.
    div remaining (add level.price (fee_per_share level.price rate)) >>= λ ratio.
    round_shares ratio >>= λ affordable. ok (min_of size affordable)

-- What the loop of `walk_asks` accumulates.
pub record Walked : Type 0 where
  pub remaining : Decimal
  pub fills : List Fill
  pub notional : Decimal
  pub fee : Decimal

unfoldable pub buy_level : Decimal → AskLevel → Decimal → Walked → Walked
unfolding level_fee
buy_level rate level take w =
    let level_cost = mul take level.price in
    let level_fees = level_fee take level.price rate in
    record {
      remaining = sub w.remaining (add level_cost level_fees);
      fills = w.fills ++ record { price = level.price; shares = take } ∷ [];
      notional = add w.notional level_cost;
      fee = add w.fee level_fees;
    }

-- The loop; both of its breaks keep what was accumulated.
unfoldable pub walk_levels : Decimal → Decimal → List AskLevel → Walked → Result FillFailure Walked
unfolding take_of buy_level
walk_levels rate limit [] w = ok w
walk_levels rate limit (level ∷ rest) w =
    if lt limit level.price
    then ok w
    else map_err arithmetic (take_of rate level w.remaining) >>= λ take.
        if le take nought then ok w else walk_levels rate limit rest (buy_level rate level take w)

abbrev pub start : Decimal → Walked
start budget = record { remaining = budget; fills = []; notional = nought; fee = nought }

unfoldable pub finish_walk : Walked → Walk
finish_walk w = record {
  fills = w.fills;
  shares = sum_from nought (map (λ f. f.shares) w.fills);
  notional = w.notional;
  fee = w.fee;
}

unfoldable pub walk_asks :
    List AskLevel → Decimal → Decimal → Decimal → Decimal → Result FillFailure Walk
unfolding sorted_asks walk_levels finish_walk
walk_asks asks budget rate limit tick =
    if lt budget nought
    then err (fill_error bad_budget)
    else if not (le nought rate && lt rate one)
    then err (fill_error fee_unknown)
    else sorted_asks asks tick >>= λ levels.
        walk_levels rate limit levels (start budget) >>= λ w. ok (finish_walk w)
