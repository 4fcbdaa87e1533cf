-- ===== src/Lifecycle.antt =====
-- The scheduled work: src/lifecycle/.
pub mod SyncRun
pub mod SyncLaws
pub mod Cleanup
mod Tests
