-- ===== src/Catalog.antt =====
-- The revisions of skills: src/domain/catalog/ and src/catalog/verified-revision-cache.ts.
pub mod Text
pub mod TextLaws
pub mod Path
pub mod Revision
pub mod Created
pub mod Again
pub mod Bounds
pub mod Cache
pub mod CacheLaws
mod Tests
