-- ===== src/Timelines.antt =====
-- The timelines of the API, apps/api/src/timeline.
pub mod Units
pub mod Rows
pub mod Actions
pub mod Build
pub mod Service
mod Tests
