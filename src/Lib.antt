-- ===== src/Lib.antt =====
-- task_scheduler: a coordinator hands the runs of schedules to agents, and keeps runs, attempts and
-- leases in a SQLite store. This library models the decisions of the coordinator's store, of health
-- scoring, placement, blueprints and schedules, and of an agent's ledger, and proves what they promise.
-- Paths are from the repository's root.
--
-- Parts, and how they interact:
-- - Prelude: names of the libraries, Boolean tests, lists, results, and tables as lists of rows
--   (find, update, update_where, matched stand for SELECT, UPDATE and rows_affected).
-- - Domain: crates/scheduler-core/src/domain.rs: states, results, settings, agent identifiers.
-- - Health: crates/scheduler-core/src/health.rs: Health/Classify attributes a failure, Health/Input
--   decides whether an input is poison, Health/Node scores a node and moves its placement state.
-- - Runs: crates/scheduler-store/src/lib.rs. Runs/Tables has the rows; Runs/Triggers create_run and
--   create_cron_occurrence; Runs/Offers create_attempt, release_offer, reject_offer, accept_attempt;
--   Runs/Leases renew_attempts, reauthorize_attempt, claim_expired_attempts; Runs/Finish
--   finish_attempt and finish_expired_attempt; Runs/Control cancel_run and retry_run. Runs/Collecting
--   has what makes and ends the runs of a batch: finalize_batch and cancel_batch of
--   crates/scheduler-store/src/collection.rs, and Runs/Fencing reconcile_confirmed_collection_items_tx
--   of crates/scheduler-store/src/health.rs (reconcile_confirmed). The operations on one run call
--   Runs/Batches (sync_batch_run_state_tx of crates/scheduler-store/src/collection.rs) and Runs/Stats
--   (the rollups) where the code does.
-- - Runs/Invariant: the invariant that every transaction keeps, and what follows for any sequence of
--   transactions. Runs/Claims, Runs/Redelivery, Runs/Once, Runs/Backoff and Runs/Completion: races for a lease,
--   repeated results, repeated triggers, waiting times, complete batches.
-- - Agent: bins/agent/src/ledger.rs: Agent/Ledger has the table of assignments on an agent and its
--   operations, Agent/Runner how often one lifetime runs an assignment, Agent/Ownership how its result
--   is kept. The agent's rows are the counterpart of the accepted attempts in the coordinator's store.
--   Agent/Resolver is bins/agent/src/parameter_bindings.rs: ParameterBindingResolver reads the values of
--   bound parameters before it calls resolve_parameter_bindings; Agent/Sources says what it may read.
-- - Registry: what crates/scheduler-store/src/lib.rs keeps about agents and settings. Registry/Locks has
--   acquire_lock, current_lock, renew_lock and release_lock, Registry/Documents update_settings,
--   Registry/Agents upsert_agent, disconnect_agent and settings_applied. Registry/History is any
--   sequence of them; Registry/Revisions, Registry/Coherence, Registry/Registration, Registry/Progress and
--   Registry/Settling follow the revisions in it, Registry/Exclusion and Registry/LockRows the locks.
-- - Parameters: crates/scheduler-core/src/blueprint.rs and bindings.rs. Parameters/Text and
--   Parameters/Json are texts and JSON values, Parameters/Templates renders templates,
--   Parameters/Executors renders and checks executors, Parameters/Bindings checks bindings,
--   Parameters/Merge merges parameters, Parameters/Redaction finds the paths to hide, and
--   Parameters/Snapshots makes and resolves execution snapshots: the coordinator calls
--   resolve_snapshot, the agent resolve_parameter_bindings. The other files are proofs about them.
-- - Placement: bins/coordinator/src/state.rs: reserve_agent_avoiding and the sessions that it chooses
--   from, by the placement state of Health/Node and the labels and bindings of a snapshot.
-- - Cron: crates/scheduler-core/src/schedule.rs: next_occurrences, whose instants Runs/Triggers turns
--   into runs.
-- - Collections: crates/scheduler-core/src/collection.rs: the configuration of parameter collections and
--   the texts of the states of batches and items.
-- - Examples: tests and concrete instances.
--
-- How the state is modelled. A transaction is a function from the store to a result and the new
-- store; one that fails or rolls back leaves the store as it was. SQLite lets one writer run at a
-- time, so an interleaving of transactions is a sequence of them. The expiry loop reads its rows in a
-- statement of its own: its round is also a step on a row scanned at any earlier time. The clock is
-- read at `now`, in milliseconds; random identifiers, tokens and the jitter are arguments.
-- A Uuid is a number, and unsigned integers are numbers; where the code wraps, saturates or casts,
-- the definition writes it out. Definitions are total: loops run over lists, and only the two loops that
-- search templates run on fuel, the length of the template and one, as each round consumes part of it.
-- A template is the list of its code points; a list of entries stands for a map with distinct keys.
-- Third-party code is a parameter: the parsers of URLs, time zones and cron expressions, the cron
-- iterator, jsonschema, digests, the JSON texts of settings, and the division of `f64`.
--
-- Not modelled: ciphertexts, key ids and JSON texts (no decision reads them); errors of the database
-- itself. A `u64` of seconds is cast to `i64` as the code does (after_seconds); where chrono panics, as
-- for a time beyond its range, the transaction does not commit. Steps of the transition system assume
-- that a run is created, and an item collected, with max_attempts of at least one, and that no agent
-- sends a result for an offer that could not be delivered. Of the collection store only the
-- transactions that write runs are modelled, not the lifecycle of a batch before that; of the health
-- store only the one that fences runs. The channels to agents and metrics are left out. Not modelled at
-- all: the HTTP API and user interface, the control stream, the agent process around its ledger, the
-- executor, collectors, adapters, dashboards, cryptography and telemetry, which are input and output
-- around the store or parts of their own.
mod Prelude
pub mod Agent
pub mod Collections
pub mod Cron
pub mod Domain
pub mod Health
pub mod Parameters
pub mod Placement
pub mod Registry
pub mod Runs
mod Examples
