-- ===== src/Scripts.antt =====
-- The scripts of the repository that decide on releases and on the runs of its tests.
pub mod Lines
pub mod Patterns
pub mod ReleaseDetect
pub mod CiScope
pub mod PypiGuard
pub mod Changelog
pub mod ReviewGate
