-- ===== src/Finance/Types.antt =====
-- finance/types.py and the enumerations of finance/contracts.py: what an order is made of.
-- A quantity or a price is the coefficient of a decimal at one common exponent.
use liki.Common.{String}

-- The message of the exception.
pub data ValueError : Type 0 where
  value_error : String → ValueError

pub data Side : Type 0 where
  buy : Side
  sell : Side

pub data OrderType : Type 0 where
  market : OrderType
  limit : OrderType

pub data TimeInForce : Type 0 where
  gtc : TimeInForce
  ioc : TimeInForce
  fok : TimeInForce
