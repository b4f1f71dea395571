-- ===== src/Worker.antt =====
-- The worker, apps/worker/src.
pub mod Scheduler
pub mod Status
