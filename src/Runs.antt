-- ===== src/Runs.antt =====
-- The life of runs and attempts in crates/scheduler-store/src/lib.rs. A transaction is a function
-- from the store to a result and the new store: a transaction that rolls back or fails leaves the
-- store as it was. The clock is read once, at `now`; random identifiers, lease tokens and jitter are
-- arguments.
pub mod Tables
pub mod Triggers
pub mod Once
pub mod Batches
pub mod Stats
pub mod Offers
pub mod Leases
pub mod Finish
pub mod Control
pub mod Collecting
pub mod Fencing
pub mod Invariant
pub mod Backoff
pub mod Redelivery
pub mod Claims
pub mod Completion
