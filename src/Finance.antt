-- ===== src/Finance.antt =====
-- finance/: paper orders, their rounding, and the stops that block them.
pub mod Types
pub mod Orders
pub mod Stops
pub mod Rounding
