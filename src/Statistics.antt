-- ===== src/Statistics.antt =====
-- statistics/: how observations are split in time for validation.
pub mod Splits
