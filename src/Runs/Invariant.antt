-- ===== src/Runs/Invariant.antt =====
-- The invariant of the tables of runs and attempts, each transaction in turn, and the transition system
-- that the transactions make.
pub mod Tally
mod Change
mod Creating
mod Opening
mod Leasing
mod Closing
mod Sweeping
pub mod Reach
pub mod Rows
mod Transitions
mod Endings
pub mod Safety
