-- ===== src/Delivery.antt =====
-- The use cases that deliver skills: src/application/ and src/catalog/unified-catalog-provider.ts.
pub mod Errors
pub mod Exact
pub mod Load
pub mod LoadLaws
pub mod LoadOnce
pub mod Read
pub mod Search
pub mod SearchLaws
mod Tests
pub mod Unified
pub mod UnifiedLaws
