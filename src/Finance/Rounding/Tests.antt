-- ===== src/Finance/Rounding/Tests.antt =====
-- A buy of 27 at a limit of 1003, in lots of 10 and ticks of 5.
use liki.Common.{some, none, false, ◌≡◌, refl, ok}
use liki.Common.Int.{pos, ◌*ℤ◌}
use liki.Finance.Types.{buy, limit, gtc}
use liki.Finance.Rounding.{
  VenueOrder, InstrumentSpec, spot, trading, valid_spec, floor_to_increment, ceil_to_increment,
  rounded_limit, of_type, rounded_price, rounded_order,
}
use liki.Finance.Rounding.Adverse.{IsRounded, rounded_order-IsRounded}

abbrev asked : VenueOrder
asked = record {
  side = buy;
  quantity = pos 27;
  order_type = limit;
  limit_price = some (pos 1003);
  reduce_only = false;
  post_only = false;
  time_in_force = gtc;
}

abbrev sent : VenueOrder
sent = record asked { quantity = pos 20; limit_price = some (pos 1005) }

abbrev instrument : InstrumentSpec
instrument = record {
  version = "1";
  venue = "binance";
  instrument_id = "BTCUSDT";
  contract_kind = spot;
  base_currency = "BTC";
  quote_currency = "USDT";
  settlement_currency = "USDT";
  tick_size = pos 5;
  lot_size = pos 10;
  min_quantity = pos 10;
  min_notional = pos 1;
  max_quantity = none;
  price_lower = none;
  price_upper = none;
  multiplier = pos 1;
  initial_margin_rate = none;
  maintenance_margin_rate = none;
  effective_from = 0;
  effective_to = none;
  trading_status = trading;
}

rounded : rounded_order asked instrument ≡ ok sent
unfolding rounded_order rounded_price of_type rounded_limit floor_to_increment ceil_to_increment
    ◌*ℤ◌
rounded = refl

rounded_order-IsRounded_example : IsRounded asked instrument sent
unfolding valid_spec
rounded_order-IsRounded_example = rounded_order-IsRounded asked sent instrument refl rounded
