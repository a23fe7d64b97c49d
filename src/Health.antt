-- ===== src/Health.antt =====
-- crates/scheduler-core/src/health.rs: how the results of attempts become health evidence.
pub mod Classify
pub mod NameSet
pub mod Input
pub mod Node
