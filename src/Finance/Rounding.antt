-- ===== src/Finance/Rounding.antt =====
-- finance/contracts.py: an order rounded to the lot and the tick of its instrument, with
-- floor_to_increment and ceil_to_increment of finance/types.py.
mod Adverse
mod Tests
use liki.Common.{
  ℕ, string_eq, ◌==◌, leb, zero, suc, ◌+◌, ◌-◌, ◌/◌, String, List, Option, none, some, Bool, true,
  false, if◌then◌else◌, Result, ok, err, ◌>>=◌, ◌>>◌, raise_if, ◌||◌,
}
use liki.Common.Int.{ℤ, pos, negsuc, ◌*ℤ◌, ltb_ℤ, leb_ℤ}
use liki.Finance.Types.{
  ValueError, value_error, Side, buy, sell, OrderType, market, limit, TimeInForce,
}

pub record VenueOrder : Type 0 where
  pub side : Side
  pub quantity : ℤ
  pub order_type : OrderType
  pub limit_price : Option ℤ
  pub reduce_only : Bool
  pub post_only : Bool
  pub time_in_force : TimeInForce

pub data ContractKind : Type 0 where
  spot : ContractKind
  linear_perpetual : ContractKind
  inverse_perpetual : ContractKind

pub data TradingStatus : Type 0 where
  trading : TradingStatus
  halted : TradingStatus
  maintenance : TradingStatus

pub record InstrumentSpec : Type 0 where
  pub version : String
  pub venue : String
  pub instrument_id : String
  pub contract_kind : ContractKind
  pub base_currency : String
  pub quote_currency : String
  pub settlement_currency : String
  pub tick_size : ℤ
  pub lot_size : ℤ
  pub min_quantity : ℤ
  pub min_notional : ℤ
  pub max_quantity : Option ℤ
  pub price_lower : Option ℤ
  pub price_upper : Option ℤ
  pub multiplier : ℤ
  pub initial_margin_rate : Option ℤ
  pub maintenance_margin_rate : Option ℤ
  pub effective_from : ℕ
  pub effective_to : Option ℕ
  pub trading_status : TradingStatus

-- `effective_to is not None and effective_to <= effective_from`
abbrev pub ends_early : Option ℕ → ℕ → Bool
ends_early none start = false
ends_early (some end) start = leb end start

-- Three names that are not empty, then `valid_spec`.
unfoldable pub valid_spec : InstrumentSpec → Result ValueError InstrumentSpec
valid_spec s = do
  raise_if (s.version == "" || s.venue == "" || s.instrument_id == "")
      (value_error "an identifier is empty")
  raise_if
      (leb_ℤ s.tick_size (pos 0)
        || leb_ℤ s.lot_size (pos 0)
        || leb_ℤ s.min_quantity (pos 0)
        || leb_ℤ s.min_notional (pos 0)
        || leb_ℤ s.multiplier (pos 0))
      (value_error "instrument increments and multiplier must be positive")
  raise_if (ends_early s.effective_to s.effective_from)
      (value_error "effective_to must follow effective_from")
  ok s

abbrev pub neg : ℕ → ℤ
neg zero = pos 0
neg (suc n) = negsuc n

-- `(value / increment).to_integral_value(rounding=ROUND_DOWN) * increment`: towards zero.
unfoldable pub floor_to_increment : ℤ → ℤ → ℤ
floor_to_increment (pos n) (pos d) = pos (n / d) *ℤ pos d
floor_to_increment (negsuc n) (pos d) = neg (suc n / d) *ℤ pos d
floor_to_increment (pos n) (negsuc d) = neg (n / suc d) *ℤ negsuc d
floor_to_increment (negsuc n) (negsuc d) = pos (suc n / suc d) *ℤ negsuc d

-- The same with `ROUND_UP`: away from zero.
unfoldable pub ceil_to_increment : ℤ → ℤ → ℤ
ceil_to_increment (pos n) (pos d) = pos ((n + (d - 1)) / d) *ℤ pos d
ceil_to_increment (negsuc n) (pos d) = neg ((suc n + (d - 1)) / d) *ℤ pos d
ceil_to_increment (pos n) (negsuc d) = neg ((n + d) / suc d) *ℤ negsuc d
ceil_to_increment (negsuc n) (negsuc d) = pos ((suc n + d) / suc d) *ℤ negsuc d

unfoldable pub rounded_limit : Side → ℤ → ℤ → ℤ
unfolding floor_to_increment ceil_to_increment
rounded_limit buy price tick = ceil_to_increment price tick
rounded_limit sell price tick = floor_to_increment price tick

unfoldable pub of_type : OrderType → Side → Option ℤ → ℤ → Result ValueError (Option ℤ)
unfolding rounded_limit
of_type market side price tick = ok price
of_type limit side none tick = err (value_error "limit order needs positive limit price")
of_type limit side (some price) tick =
    if leb_ℤ price (pos 0)
    then err (value_error "limit order needs positive limit price")
    else ok (some (rounded_limit side price tick))

unfoldable pub rounded_price : VenueOrder → InstrumentSpec → Result ValueError (Option ℤ)
unfolding of_type
rounded_price o s = of_type o.order_type o.side o.limit_price s.tick_size

unfoldable pub rounded_order : VenueOrder → InstrumentSpec → Result ValueError VenueOrder
unfolding floor_to_increment rounded_price
rounded_order o s = do
  raise_if (ltb_ℤ (floor_to_increment o.quantity s.lot_size) s.min_quantity)
      (value_error "quantity rounds below venue minimum")
  price ← rounded_price o s
  ok (record o { quantity = floor_to_increment o.quantity s.lot_size; limit_price = price })
