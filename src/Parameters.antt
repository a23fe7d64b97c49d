-- ===== src/Parameters.antt =====
-- Blueprints, their parameters, and the values that only an agent knows:
-- crates/scheduler-core/src/blueprint.rs and crates/scheduler-core/src/bindings.rs.
pub mod Text
pub mod Json
pub mod Templates
mod Rounds
pub mod Ending
pub mod Executors
pub mod Bindings
pub mod Secrecy
pub mod Confinement
pub mod Names
pub mod Merge
pub mod Overrides
pub mod Redaction
pub mod Snapshots
pub mod Deferral
