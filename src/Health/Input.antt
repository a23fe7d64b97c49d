-- ===== src/Health/Input.antt =====
-- `evaluate_input_health` of health.rs: is an input poison, or suspected to be?
pub mod Groups
pub mod Evaluate
mod Table
mod Strongest
pub mod Poison
