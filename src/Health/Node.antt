-- ===== src/Health/Node.antt =====
-- `evaluate_node_health` and `apply_node_health_evaluation` of health.rs: is a node unhealthy, and
-- may it take new work?
pub mod Evaluate
pub mod Apply
mod Somewhere
pub mod Evidence
pub mod Placement
pub mod Recovery
