-- ===== src/Onboarding.antt =====
-- src/onboarding/application/: the operations that install, upgrade and remove SkillWire.
pub mod Op
pub mod Triple
pub mod Schema
pub mod Upgrade
pub mod Removal
pub mod Repair
pub mod ClientRemoval
