-- ===== src/Examples/Collected.antt =====
-- A batch of one item: it is finalized, and then cancelled or fenced.
use task_scheduler.Prelude.{
  ℕ, ◌≡◌, refl, true, none, some, List, [], ◌∷◌, find, update, update_where, update_all, matched,
  ok, err,
}
use task_scheduler.Domain.{RunState}
use task_scheduler.Runs.Tables.{Batch, BatchState, BatchItem, BatchItemState, Run, Store, run_key}
use task_scheduler.Runs.Triggers.{insert_run}
use task_scheduler.Runs.Stats.{increment_cancelled_rollup, add_daily}
use task_scheduler.Runs.Collecting.{
  run_of_item, item_run, materialize, materialize_all, finalized, finalize_batch, count_cancelled,
  cancel_batch,
}
use task_scheduler.Runs.Fencing.{
  count_item, audit_items, settle_batches, reconcile_confirmed, fence,
}
use task_scheduler.Examples.Stores.{empty}

abbrev collected : Batch
collected = record {
  id = 5;
  schedule_id = 7;
  state = BatchState.collecting;
  scheduled_at = 100;
  ingestion_complete = true;
  lease_token = some 44;
  lease_expires_at = some 900;
  max_active_runs = 1;
  invalid_item_count = 0;
  poisoned_item_count = 0;
  held_item_count = 0;
  finalized_at = none;
  updated_at = 100;
}

abbrev item : BatchItem
item = record {
  id = 6;
  batch_id = 5;
  state = BatchItemState.ready;
  run_id = none;
  has_snapshot = true;
  max_attempts = some 2;
  initial_backoff_seconds = some 5;
  backoff_cap_seconds = some 60;
  updated_at = 100;
}

abbrev collected_store : Store
collected_store = record empty { batches = collected ∷ []; items = item ∷ [] }

abbrev item_run_one : Run
item_run_one = run_of_item collected 6 31 2 5 60 200

abbrev run_ids : ℕ → ℕ
run_ids item_id = 31

abbrev finalized_store : Store
finalized_store = elim (finalize_batch 5 44 run_ids 200 collected_store) [
  | ok x ↦ x.1
  | err e ↦ empty
]

finalize_test : finalize_batch 5 44 run_ids 200 collected_store ≡ ok (finalized, finalized_store)
unfolding finalize_batch materialize_all materialize item_run insert_run find update update_where
finalize_test = refl

queued_found : find run_key 31 finalized_store.runs ≡ some item_run_one
unfolding finalize_batch materialize_all materialize item_run insert_run find update update_where
queued_found = refl

abbrev cancelled_store : Store
cancelled_store = elim (cancel_batch 5 300 finalized_store) [ ok x ↦ x.1 | err e ↦ empty ]

cancelled_found :
    find run_key 31 cancelled_store.runs
    ≡ some (record item_run_one { state = RunState.cancelled; updated_at = 300 })
unfolding finalize_batch materialize_all materialize item_run insert_run find update update_where
    matched update_all cancel_batch count_cancelled increment_cancelled_rollup add_daily
cancelled_found = refl

abbrev same_order : List (ℕ × ℕ) → List (ℕ × ℕ)
same_order counts = counts

abbrev fenced_store : Store
fenced_store = reconcile_confirmed same_order (31 ∷ []) 300 finalized_store

fenced_found : find run_key 31 fenced_store.runs ≡ some (fence 300 item_run_one)
unfolding finalize_batch materialize_all materialize item_run insert_run find update update_where
    matched update_all reconcile_confirmed audit_items count_item settle_batches
fenced_found = refl

fenced_batch :
    fenced_store.batches
    ≡ record collected {
      state = BatchState.completed_with_errors;
      lease_token = none;
      lease_expires_at = none;
      poisoned_item_count = 1;
      finalized_at = some 200;
      updated_at = 300;
    }
      ∷ []
unfolding finalize_batch materialize_all materialize item_run insert_run find update update_where
    matched update_all reconcile_confirmed audit_items count_item settle_batches
fenced_batch = refl
