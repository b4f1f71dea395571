-- ===== src/Indexer/Handlers.antt =====
-- The event handlers, apps/indexer/src/handlers: the registry's guard, then the balances, the timeline and
-- the event's own rows (shareTokens, classicVault, classicBoost, clmManager, rewardPool, classicStrategy,
-- clmStrategy, beefySwapper and factories.handlers.ts).
pub mod Rows
pub mod Guarded
pub mod Shares
pub mod Strategies
pub mod Swapper
pub mod Factories
pub mod Steps
pub mod Conservation
pub mod Kinds
mod Tests
