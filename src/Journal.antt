-- ===== src/Journal.antt =====
-- src/onboarding/domain/operation-journal.ts and src/onboarding/application/recovery.ts: the durable
-- journal of a lifecycle operation.
pub mod Entry
pub mod Append
pub mod Protocol
pub mod Invariant
pub mod Opening
pub mod Exec
pub mod Effect
pub mod EffectLaws
pub mod Outstanding
pub mod Unproven
pub mod Recovery
pub mod RecoveryEnds
pub mod RecoveryStuck
pub mod Reopening
pub mod BadLines
pub mod RecoverySettles
pub mod OperationRecord
mod Tests
