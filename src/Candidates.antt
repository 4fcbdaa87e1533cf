-- ===== src/Candidates.antt =====
-- Imported skills: src/domain/external-catalog/candidate-policy.ts and dependency-resolver.ts.
pub mod Policy
pub mod Resolver
pub mod Resolution
mod Tests
pub mod Cycles
pub mod CycleFuel
pub mod CycleTrail
pub mod CycleMembers
