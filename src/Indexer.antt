-- ===== src/Indexer.antt =====
-- The event handlers of apps/indexer/src.
pub mod Event
pub mod Store
pub mod Timeline
pub mod Balances
pub mod Registry
pub mod Handlers
