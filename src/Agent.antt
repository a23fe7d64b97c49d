-- ===== src/Agent.antt =====
-- The agent process: bins/agent/src/ledger.rs, its durable record of assignments.
pub mod Ledger
pub mod Resolver
pub mod Sources
pub mod Ownership
pub mod Runner
