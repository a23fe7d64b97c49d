-- ===== src/Registry.antt =====
-- What the coordinator keeps about its agents and their settings: documents with revisions, the
-- locks of their editors, and the registered agents (crates/scheduler-store/src/lib.rs).
pub mod Tables
pub mod Locks
pub mod Documents
pub mod Agents
pub mod Revisions
pub mod Coherence
pub mod Registration
pub mod History
pub mod Progress
pub mod Settling
pub mod LockRows
pub mod Exclusion
