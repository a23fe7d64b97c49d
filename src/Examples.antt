-- ===== src/Examples.antt =====
-- Concrete runs of the definitions: tests, and instances of the theorems.
mod Stores
mod Lives
mod Completed
mod Ledger
mod Verdicts
mod Registry
mod Parameters
mod Sources
mod Placement
mod Cron
mod Collections
mod Collected
