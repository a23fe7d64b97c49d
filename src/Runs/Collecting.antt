-- ===== src/Runs/Collecting.antt =====
-- What makes and ends the runs of a batch: `finalize_batch` and `cancel_batch` of
-- crates/scheduler-store/src/collection.rs.
use task_scheduler.Prelude.{
  ℕ, ◌+◌, String, Bool, true, false, not, ◌&&◌, Option, none, some, List, [], ◌∷◌, map, ◌==◌, ltb,
  if◌then◌else◌, find, update_where, update_all, matched, keep, any, length, Result, ok, ◌>>=◌,
  ◌>>◌, or_fail, guard,
}
use task_scheduler.Domain.{RunState}
use task_scheduler.Runs.Tables.{
  Run, TriggerKind, Batch, BatchState, BatchItem, BatchItemState, Store, StoreError,
  unique_violation, batch_is_terminal, missing_batch, not_ready, missing_policy, batch_cancelled,
  item_run_queued, batch_finalized, batch_key, item_key, append_audit, is_accepted,
}
use task_scheduler.Runs.Triggers.{insert_run}
use task_scheduler.Runs.Batches.{is_active, in_batch}
use task_scheduler.Runs.Stats.{increment_cancelled_rollup}
use task_scheduler.Runs.Control.{cancel}

-- state IN ('ready') and the like, on an item
abbrev pub is_ready : BatchItemState → Bool
is_ready BatchItemState.ready = true
is_ready _ = false

abbrev pub is_unfinished : BatchItemState → Bool
is_unfinished BatchItemState.ready = true
is_unfinished BatchItemState.queued = true
is_unfinished BatchItemState.running = true
is_unfinished _ = false

-- state IN ('scheduled','collecting','running')
abbrev pub is_open : BatchState → Bool
is_open BatchState.scheduled = true
is_open BatchState.collecting = true
is_open BatchState.running = true
is_open _ = false

abbrev pub is_collecting : BatchState → Bool
is_collecting BatchState.collecting = true
is_collecting _ = false

-- The row that `finalize_batch` inserts for an item with a snapshot and a policy.
abbrev pub run_of_item : Batch → ℕ → ℕ → ℕ → ℕ → ℕ → ℕ → Run
run_of_item b item_id run_id max_attempts initial cap now = record {
  id = run_id;
  schedule_id = b.schedule_id;
  state = RunState.queued;
  trigger_kind = TriggerKind.batch_item;
  scheduled_at = b.scheduled_at;
  not_before = b.scheduled_at;
  max_attempts = max_attempts;
  initial_backoff_seconds = initial;
  backoff_cap_seconds = cap;
  attempt_count = 0;
  attempt_offset = 0;
  idempotency_key = none;
  batch_id = some b.id;
  batch_item_id = some item_id;
  created_at = now;
  updated_at = now;
}

-- The `let (Some(snapshot), Some(max_attempts), …) = … else { bail! }`.
unfoldable pub item_run : Batch → BatchItem → ℕ → ℕ → Result StoreError Run
item_run b i run_id now = do
  guard i.has_snapshot missing_policy
  max_attempts ← or_fail i.max_attempts missing_policy
  initial ← or_fail i.initial_backoff_seconds missing_policy
  cap ← or_fail i.backoff_cap_seconds missing_policy
  ok (run_of_item b i.id run_id max_attempts initial cap now)

abbrev pub queue_item : ℕ → ℕ → BatchItem → BatchItem
queue_item run_id now i = record i {
  state = BatchItemState.queued;
  run_id = some run_id;
  updated_at = now;
}

-- idx_runs_batch_item
abbrev pub of_item : ℕ → Run → Bool
of_item item_id r = elim r.batch_item_id [ none ↦ false | some i ↦ i == item_id ]

-- One round of the inner loop.
unfoldable pub materialize : Batch → BatchItem → ℕ → ℕ → Store → Result StoreError Store
unfolding item_run
materialize b i run_id now s = do
  r ← item_run b i run_id now
  guard (not (any (of_item i.id) s.runs)) unique_violation
  runs ← or_fail (insert_run r s.runs) unique_violation
  ok (
      append_audit (item_run_queued b.id run_id) (record s {
        runs = runs;
        items = update_where item_key i.id (λ x. is_ready x.state) (queue_item run_id now) s.items;
      }))

-- The two loops: pages of a hundred ready items, until none is left. A page takes its items out of
-- `ready`, so together the pages are the ready items; rows stand in the order of `item_index`.
-- `run_ids` has the fresh UUID for each item.
unfoldable pub materialize_all :
    Batch → List BatchItem → (ℕ → ℕ) → ℕ → Store → Result StoreError Store
unfolding materialize
materialize_all b [] run_ids now s = ok s
materialize_all b (i ∷ items) run_ids now s =
    materialize b i (run_ids i.id) now s >>= λ t. materialize_all b items run_ids now t

abbrev pub ready_items : ℕ → List BatchItem → List BatchItem
ready_items b items = keep (λ i. i.batch_id == b && is_ready i.state) items

-- lease_token and a lease that has not expired
abbrev pub holds_token : ℕ → Option ℕ → Bool
holds_token token none = false
holds_token token (some t) = t == token

abbrev pub is_ahead : ℕ → Option ℕ → Bool
is_ahead now none = false
is_ahead now (some t) = ltb now t

abbrev pub may_finalize : ℕ → ℕ → Batch → Bool
may_finalize token now b =
    is_collecting b.state
    && (b.ingestion_complete
        && (holds_token token b.lease_token && is_ahead now b.lease_expires_at))

-- running, succeeded, completed_with_errors, failed or cancelled
abbrev pub is_finalized : BatchState → Bool
is_finalized BatchState.scheduled = false
is_finalized BatchState.collecting = false
is_finalized _ = true

abbrev pub state_of_finalized : ℕ → Batch → BatchState
state_of_finalized materialized b =
    if materialized == 0
    then (if ltb 0 (b.invalid_item_count + b.poisoned_item_count + b.held_item_count)
        then BatchState.completed_with_errors
        else BatchState.succeeded)
    else BatchState.running

abbrev pub finalize_row : BatchState → ℕ → Batch → Batch
finalize_row state now b = record b {
  state = state;
  lease_token = none;
  lease_expires_at = none;
  finalized_at = some now;
  updated_at = now;
}

pub data FinalizeBatchOutcome : Type 0 where
  finalized already_finalized : FinalizeBatchOutcome

-- From the guards on.
abbrev pub finalize_open :
    ℕ → ℕ → (ℕ → ℕ) → ℕ → Store → Batch → Result StoreError (FinalizeBatchOutcome × Store)
finalize_open batch_id token run_ids now s b = do
  guard (may_finalize token now b) not_ready
  let items = ready_items batch_id s.items
  t ← materialize_all b items run_ids now s
  let state = state_of_finalized (length items) b
  ok (
    finalized,
    append_audit (batch_finalized batch_id (length items) state) (record t {
      batches =
          update_where batch_key batch_id (λ x. is_collecting x.state) (finalize_row state now)
            t.batches;
    }),
  )

unfoldable pub finalize_batch :
    ℕ → ℕ → (ℕ → ℕ) → ℕ → Store → Result StoreError (FinalizeBatchOutcome × Store)
finalize_batch batch_id token run_ids now s = do
  b ← or_fail (find batch_key batch_id s.batches) missing_batch
  if is_finalized b.state
      then ok (already_finalized, s)
      else finalize_open batch_id token run_ids now s b

-- The runs that a cancelled batch takes with it.
abbrev pub active_in : ℕ → Run → Bool
active_in b r = in_batch b r && is_active r.state

-- INSERT INTO daily_schedule_stats SELECT … COUNT(*) … GROUP BY schedule_id ON CONFLICT DO UPDATE: as
-- the counts are added up, a group is as many single rows.
unfoldable pub count_cancelled : List Run → ℕ → Store → Store
count_cancelled [] now s = s
count_cancelled (r ∷ rs) now s =
    count_cancelled rs now (increment_cancelled_rollup r.schedule_id now s)

-- SELECT … FROM attempts a JOIN runs r ON r.id=a.run_id WHERE r.batch_id=? AND a.state='accepted'
abbrev pub runs_in : ℕ → List Run → ℕ → Bool
runs_in b runs run_id = any (λ r. r.id == run_id && in_batch b r) runs

abbrev pub accepted_in : ℕ → Store → List (String × ℕ)
accepted_in b s =
    map (λ a. (a.agent_id, a.id))
      (keep (λ a. is_accepted a.state && runs_in b s.runs a.run_id) s.attempts)

abbrev pub cancel_batch_row : ℕ → Batch → Batch
cancel_batch_row now b = record b {
  state = BatchState.cancelled;
  lease_token = none;
  lease_expires_at = none;
  updated_at = now;
}

unfoldable pub cancel_batch : ℕ → ℕ → Store → Result StoreError (List (String × ℕ) × Store)
unfolding count_cancelled
cancel_batch batch_id now s = do
  guard (matched batch_key batch_id (λ b. is_open b.state) s.batches) batch_is_terminal
  let s1 = count_cancelled (keep (active_in batch_id) s.runs) now s
  let s2 = record s1 {
    batches =
        update_where batch_key batch_id (λ b. is_open b.state) (cancel_batch_row now) s.batches;
    runs = update_all (active_in batch_id) (cancel now) s.runs;
    items =
        update_all (λ i. i.batch_id == batch_id && is_unfinished i.state)
          (λ i. record i { state = BatchItemState.cancelled; updated_at = now }) s.items;
  }
  ok (accepted_in batch_id s2, append_audit (batch_cancelled batch_id) s2)
