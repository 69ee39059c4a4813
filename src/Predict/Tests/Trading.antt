-- ===== src/Predict/Tests/Trading.antt =====
-- Two books, and the trade of a policy.
use japan_agent.Base.{◌≡◌, refl, ◌↔◌, ◌⊎◌, none, some, true, false, List, [], ◌∷◌, ok, ◌>>=◌, arith}
use mathlib.Core.List.{Perm}
use japan_agent.Base.Sort.{sort, Ascending}
use japan_agent.Base.Decimal.{
  Decimal, dec, add, sub, mul, div, lt, le, eq, min_of, max_of, sum_from, quantize,
}
use japan_agent.Base.Decimal.Order.{Le, Lt, IsPositive-intro}
use japan_agent.Base.Decimal.Remainder.{remainder}
use japan_agent.Base.Decimal.Format.{to_text}
use japan_agent.Predict.Outcome.{yes, no}
use japan_agent.Predict.Params.{PolicyParams, bounds, low}
use japan_agent.Predict.Fills.{AskLevel, Walk, cost, cheaper, walk_asks}
use japan_agent.Predict.Fills.Within.{Takes, walk_asks-Takes}
use japan_agent.Predict.Policy.{
  SideBook, PolicyInputs, Trade, traded, kelly, edge, budget_for, side_probabilities, book_of, gate,
}
use japan_agent.Predict.Policy.Decide.{
  try_book, second_is_better, better, choose, decide_open, decide,
}
use japan_agent.Predict.Policy.Ready.{IsReady, gate_iff}
use japan_agent.Predict.Policy.Sizing.{IsWithinCaps, budget_for-IsWithinCaps}
use japan_agent.Predict.Policy.Sound.{IsGranted, decide-IsGranted}
use japan_agent.Predict.Policy.Best.{decide-Prefers}
use japan_agent.Predict.Money.{money_text, parse_money, parse_money-money_text}

abbrev pub asks : List AskLevel
asks =
    record { price = dec 41 2; size = dec 100 0 }
    ∷ record { price = dec 40 2; size = dec 505 1 }
    ∷ record { price = dec 50 2; size = dec 100 0 }
    ∷ []

abbrev pub yes_book : SideBook
yes_book = record {
  outcome = yes;
  snapshot_id = 1;
  fetched_at = 1000;
  asks = asks;
  tick_size = dec 1 2;
  min_order_size = dec 5 0;
  fees_enabled = false;
  fee_schedule = none;
}

abbrev pub no_book : SideBook
no_book = record {
  outcome = no;
  snapshot_id = 2;
  fetched_at = 1000;
  asks = record { price = dec 30 2; size = dec 100 0 } ∷ [];
  tick_size = dec 1 2;
  min_order_size = dec 5 0;
  fees_enabled = false;
  fee_schedule = none;
}

abbrev pub inputs : PolicyInputs
inputs = record {
  forecast = record {
    abstained = false;
    p_low = some (dec 55 2);
    p_mid = some (dec 58 2);
    p_high = some (dec 60 2);
    confidence = some "medium";
    rules_hash = "r1";
    end_date = some 999999999999;
  };
  current_rules_hash = "r1";
  eligible = true;
  resolution_started = false;
  already_traded = false;
  books = (yes, yes_book) ∷ (no, no_book) ∷ [];
  equity = dec 1000 0;
  available_cash = dec 800 0;
  exposure = record { market = dec 0 0; event = dec 0 0; category = dec 0 0; total = dec 0 0 };
  now = 2000;
}

abbrev pub params : PolicyParams
params = record {
  probability = bounds;
  starting_bankroll = dec 1000 0;
  min_edge = dec 5 2;
  min_confidence = low;
  kelly_fraction = dec 25 2;
  cap_market = dec 5 2;
  cap_event = dec 10 2;
  cap_category = dec 20 2;
  cap_total_open = dec 50 2;
  max_slippage = dec 5 2;
  min_hours_to_close = 24;
  max_book_age_seconds = 60;
}

abbrev pub walk_yes : Walk
walk_yes = record {
  fills =
      record { price = dec 40 2; shares = dec 5050 2 }
      ∷ record { price = dec 41 2; shares = dec 7268 2 }
      ∷ [];
  shares = dec 12318 2;
  notional = dec 499988 4;
  fee = dec 0 6;
}

abbrev on_yes : Trade
on_yes = record {
  outcome = yes;
  snapshot_id = 1;
  q = dec 55 2;
  best_ask = dec 40 2;
  budget = dec 5000 2;
  walk = walk_yes;
}

abbrev on_no : Trade
on_no = record {
  outcome = no;
  snapshot_id = 2;
  q = dec 40 2;
  best_ask = dec 30 2;
  budget = dec 3571428571428571428571428572 26;
  walk = record {
    fills = record { price = dec 30 2; shares = dec 10000 2 } ∷ [];
    shares = dec 10000 2;
    notional = dec 300000 4;
    fee = dec 0 6;
  };
}

-- The dearer level comes first in the book; the limit keeps the third from being bought.
pub walked : walk_asks asks (dec 50 0) (dec 0 0) (dec 42 2) (dec 1 2) ≡ ok walk_yes
unfolding walk_asks remainder sort lt le eq min_of quantize div mul add sub sum_from
walked = refl

walk_asks-Takes_example :
    (levels : List AskLevel) × Perm levels asks
    × Ascending cheaper levels
    × Takes (dec 42 2) levels walk_yes.fills
walk_asks-Takes_example = walk_asks-Takes asks (dec 50 0) (dec 0 0) (dec 42 2) (dec 1 2) walked

gate_iff_example : (gate inputs params ≡ none) ↔ IsReady inputs params
gate_iff_example = gate_iff inputs params

opened : gate inputs params ≡ none
unfolding gate
opened = refl

budgeted : budget_for (dec 55 2) (dec 40 2) inputs params ≡ ok (dec 5000 2)
unfolding budget_for min_of max_of mul sub div lt
budgeted = refl

budget_for-IsWithinCaps_example :
    IsWithinCaps inputs params (dec 5000 2)
    × ((k : Decimal) × (kelly (dec 55 2) (dec 40 2) ≡ ok k)
        × Le (dec 5000 2) (mul (mul params.kelly_fraction k) inputs.equity))
budget_for-IsWithinCaps_example =
    budget_for-IsWithinCaps (dec 55 2) (dec 40 2) inputs params budgeted
      (IsPositive-intro 5000 2 (omega arith))

probabilities : side_probabilities inputs.forecast bounds ≡ ok (dec 55 2, dec 40 2)
unfolding side_probabilities sub
probabilities = refl

tried_yes : try_book (book_of yes inputs.books) (dec 55 2) inputs params ≡ ok (traded on_yes)
unfolding try_book book_of walk_asks remainder sort lt le eq min_of max_of quantize div mul add sub
    sum_from budget_for
tried_yes = refl

tried_no : try_book (book_of no inputs.books) (dec 40 2) inputs params ≡ ok (traded on_no)
unfolding try_book book_of walk_asks remainder sort lt le eq min_of max_of quantize div mul add sub
    sum_from budget_for
tried_no = refl

edge_yes : edge on_yes ≡ ok (dec 1440996915083617470368566326 28)
unfolding edge cost add sub div
edge_yes = refl

edge_no : edge on_no ≡ ok (dec 1000000000000000000000000000 28)
unfolding edge cost add sub div
edge_no = refl

decided : decide inputs params ≡ ok (traded on_yes)
unfolding decide decide_open choose better second_is_better gate lt eq
decided = rw (probabilities, tried_yes, tried_no, edge_yes, edge_no) refl

decide-IsGranted_example : IsGranted inputs params on_yes
decide-IsGranted_example = decide-IsGranted inputs params decided

decide-Prefers_example :
    ((on_yes ≡ on_yes)
      × Le (dec 1000000000000000000000000000 28) (dec 1440996915083617470368566326 28))
    ⊎ ((on_yes ≡ on_no)
        × Lt (dec 1440996915083617470368566326 28) (dec 1000000000000000000000000000 28))
decide-Prefers_example =
    decide-Prefers inputs params (dec 55 2) (dec 40 2) (dec 1440996915083617470368566326 28)
      (dec 1000000000000000000000000000 28) on_yes on_no probabilities tried_yes tried_no refl
      edge_yes edge_no opened decided

parse_money-money_text_example : (money_text (some (dec 1250 2)) >>= parse_money) ≡ ok (dec 1250 2)
parse_money-money_text_example = parse_money-money_text (dec 1250 2)

-- 12.50
written : money_text (some (dec 1250 2)) ≡ ok (b'1' ∷ b'2' ∷ b'.' ∷ b'5' ∷ b'0' ∷ [])
unfolding money_text to_text
written = refl
