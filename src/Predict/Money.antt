-- ===== src/Predict/Money.antt =====
-- predict_agent/cash.py: amounts of money as text.
use japan_agent.Base.{◌≡◌, refl, Option, none, some, Result, ok, err, ◌>>=◌}
use japan_agent.Base.Decimal.{Decimal}
use japan_agent.Base.Decimal.Format.{Text, Parsed, unreadable, not_finite, finite, to_text, of_text}
use japan_agent.Base.Decimal.Roundtrip.{of_text-to_text}
use japan_agent.Predict.Ledger.{LedgerError, not_an_amount, not_a_finite_amount}

-- No decimal stands for an infinity or for no number.
unfoldable pub money_text : Option Decimal → Result LedgerError Text
money_text none = err not_a_finite_amount
money_text (some value) = ok (to_text value)

unfoldable parsed_money : Parsed → Result LedgerError Decimal
parsed_money unreadable = err not_an_amount
parsed_money not_finite = err not_a_finite_amount
parsed_money (finite value) = ok value

unfoldable pub parse_money : Text → Result LedgerError Decimal
unfolding parsed_money
parse_money text = parsed_money (of_text text)

-- A finite amount that is written as text is read back as the same decimal, with the same number of
-- places.
pub parse_money-money_text : (x : Decimal) → (money_text (some x) >>= parse_money) ≡ ok x
unfolding money_text parse_money
parse_money-money_text x = rw (of_text-to_text x) refl
