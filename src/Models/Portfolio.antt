-- ===== src/Models/Portfolio.antt =====
-- InstrumentRule, PriceSnapshot, Position, Portfolio and ResearchDecision of japan_agent/models.py.
use japan_agent.Base.{
  Bool, true, false, ◌&&◌, ◌||◌, not, Option, List, [], ◌∷◌, map, String, str_eq, Result, ok, ◌>>◌,
  raise_if, if◌then◌else◌,
}
use japan_agent.Base.Decimal.{Decimal, dec, add, sum_from, le}
use japan_agent.Time.{Datetime}
use japan_agent.Models.Enums.{Action, Sleeve}

pub record InstrumentRule : Type 0 where
  pub ticker : String
  pub display_name : String
  pub sleeve : Sleeve
  pub instrument_type : String
  pub native_currency : String
  pub max_position_fraction : Decimal
  pub max_position_gbp : Option Decimal

pub record PriceSnapshot : Type 0 where
  pub ticker : String
  pub native_price : Decimal
  pub native_currency : String
  pub price_gbp : Decimal
  pub observed_at : Datetime
  pub source : String

pub record Position : Type 0 where
  pub ticker : String
  pub quantity : Decimal
  pub market_value_gbp : Decimal

pub record Portfolio : Type 0 where
  pub cash_gbp : Decimal
  pub positions : List Position

abbrev pub zero_decimal : Decimal
zero_decimal = dec 0 0

unfoldable pub nav_gbp : Portfolio → Decimal
unfolding add sum_from
nav_gbp p = add p.cash_gbp (sum_from zero_decimal (map (λ item. item.market_value_gbp) p.positions))

unfoldable pub find_position : String → List Position → Position
find_position ticker [] = record {
  ticker = ticker;
  quantity = zero_decimal;
  market_value_gbp = zero_decimal;
}
find_position ticker (item ∷ rest) =
    if str_eq item.ticker ticker then item else find_position ticker rest

-- `Portfolio.position`
unfoldable pub position : Portfolio → String → Position
unfolding find_position
position p ticker = find_position ticker p.positions

pub record PortfolioSnapshot : Type 0 where
  pub portfolio : Portfolio
  pub observed_at : Datetime
  pub source : String

pub record ResearchDecision : Type 0 where
  pub thesis : String
  pub evidence : List String
  pub action : Action
  pub instrument : String
  pub target_weight : Decimal
  pub confidence : Decimal
  pub invalidation_condition : String
  pub research_run_id : Option String

pub data DecisionError : Type 0 where
  weight_out_of_range confidence_out_of_range missing_field : DecisionError

abbrev is_empty : List String → Bool
is_empty [] = true
is_empty (_ ∷ _) = false

-- The checks at the end of `ResearchDecision.from_dict`, on the fields that it has read.
unfoldable pub checked_decision : ResearchDecision → Result DecisionError ResearchDecision
unfolding le
checked_decision d = do
  raise_if (not (le zero_decimal d.target_weight && le d.target_weight (dec 1 0)))
      weight_out_of_range
  raise_if (not (le zero_decimal d.confidence && le d.confidence (dec 1 0))) confidence_out_of_range
  raise_if (str_eq d.thesis "" || is_empty d.evidence || str_eq d.invalidation_condition "")
      missing_field
  ok d
