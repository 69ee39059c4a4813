-- ===== src/Models/Ticket.antt =====
-- TradeTicket of japan_agent/models.py, and the checks of its `__post_init__`.
use japan_agent.Base.{◌&&◌, ◌||◌, not, List, String, Result, ok, ◌>>◌, raise_if, leb}
use japan_agent.Base.Decimal.{Decimal, dec, le}
use japan_agent.Time.{Instant, Datetime}
use japan_agent.Models.Enums.{Action, is_buy, is_sell}

pub record TradeTicket : Type 0 where
  pub proposal_id : String
  pub created_at : Instant
  pub expires_at : Instant
  pub ticker : String
  pub side : Action
  pub quantity : Decimal
  pub reference_price_gbp : Decimal
  pub estimated_value_gbp : Decimal
  pub target_weight : Decimal
  pub confidence : Decimal
  pub max_price_deviation_fraction : Decimal
  pub thesis : String
  pub evidence : List String
  pub invalidation_condition : String
  pub snapshot_observed_at : Datetime

pub data TicketError : Type 0 where
  side_not_tradable buy_quantity sell_quantity expiry_not_after_creation : TicketError

unfoldable pub post_init : TradeTicket → Result TicketError TradeTicket
unfolding le
post_init t = do
  raise_if (not (is_buy t.side || is_sell t.side)) side_not_tradable
  raise_if (is_buy t.side && le t.quantity (dec 0 0)) buy_quantity
  raise_if (is_sell t.side && le (dec 0 0) t.quantity) sell_quantity
  raise_if (leb t.expires_at t.created_at) expiry_not_after_creation
  ok t
