-- ===== src/Data.antt =====
-- data/: the market data that the office keeps, and its validation.
pub mod OrderBook
pub mod Validation
