-- ===== src/Ownership.antt =====
-- src/onboarding/domain/ownership.ts: which assets an installation owns, and what may be removed.
pub mod Record
pub mod Ledger
pub mod Distinct
pub mod Removable
pub mod Plans
pub mod Integrity
pub mod Disjoint
pub mod Proof
mod Tests
