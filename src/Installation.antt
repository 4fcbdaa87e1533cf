-- ===== src/Installation.antt =====
-- src/onboarding/domain/installation.ts: the installation, its client integrations, and the state
-- machines that both follow.
pub mod Status
pub mod ClientState
pub mod Schema
pub mod Lifecycle
pub mod ClientHistory
pub mod Records
pub mod Secrets
pub mod SourceChoice
mod Tests
