-- ===== src/Clickhouse.antt =====
-- The read path and pricing of packages/clickhouse/src.
pub mod Ranges
