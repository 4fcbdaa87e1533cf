-- ===== src/Advisory.antt =====
-- src/domain/catalog/advisory-chain.ts: the append-only chain of advisories on published revisions.
pub mod Event
pub mod Chain
pub mod Links
pub mod Revocation
pub mod External
mod Tests
