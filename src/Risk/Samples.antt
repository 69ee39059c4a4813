-- ===== src/Risk/Samples.antt =====
-- Concrete values that the tests share.
use japan_agent.Base.{◌+◌, ◌-◌, none, [], ◌∷◌}
use japan_agent.Base.Decimal.{dec}
use japan_agent.Time.{Instant, aware, days, hours}
use japan_agent.Models.Enums.{buy, core}
use japan_agent.Models.Portfolio.{InstrumentRule, PriceSnapshot, Portfolio}
use japan_agent.Models.Ticket.{TradeTicket}

abbrev pub noon : Instant
noon = days 739_000 + hours 12

abbrev pub fund : InstrumentRule
fund = record {
  ticker = "JPN_EQ";
  display_name = "Japan fund";
  sleeve = core;
  instrument_type = "ETF";
  native_currency = "GBP";
  max_position_fraction = dec 40 2;
  max_position_gbp = none;
}

abbrev pub quote : PriceSnapshot
quote = record {
  ticker = "JPN_EQ";
  native_price = dec 1950 2;
  native_currency = "GBP";
  price_gbp = dec 1950 2;
  observed_at = aware (noon - hours 1);
  source = "TEST";
}

abbrev pub purse : Portfolio
purse = record {
  cash_gbp = dec 80 0;
  positions = (record { ticker = "JPN_EQ"; quantity = dec 1 0; market_value_gbp = dec 20 0 }) ∷ [];
}

abbrev pub bought : TradeTicket
bought = record {
  proposal_id = "p1";
  created_at = noon;
  expires_at = noon + hours 24;
  ticker = "JPN_EQ";
  side = buy;
  quantity = dec 7692 4;
  reference_price_gbp = dec 1950 2;
  estimated_value_gbp = dec 1500 2;
  target_weight = dec 35 2;
  confidence = dec 6 1;
  max_price_deviation_fraction = dec 3 2;
  thesis = "growth";
  evidence = "[PRICE:JPN_EQ] price" ∷ [];
  invalidation_condition = "none";
  snapshot_observed_at = aware (noon - hours 1);
}
