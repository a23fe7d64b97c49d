-- ===== src/Examples/Completed.antt =====
-- The completion of a batch of one run.
use task_scheduler.Prelude.{◌≡◌, refl, true, none, some, [], ◌∷◌, find, ok}
use task_scheduler.Domain.{RunState}
use task_scheduler.Runs.Tables.{Batch, BatchState, BatchItemState, Store, run_key, batch_key}
use task_scheduler.Runs.Batches.{link, sync_batch_run_state}
use task_scheduler.Runs.Completion.{batch_completion}
use task_scheduler.Examples.Stores.{empty, run_one}

abbrev batch : Batch
batch = record {
  id = 5;
  schedule_id = 7;
  scheduled_at = 100;
  ingestion_complete = true;
  lease_token = none;
  lease_expires_at = none;
  finalized_at = some 100;
  state = BatchState.running;
  max_active_runs = 1;
  invalid_item_count = 0;
  poisoned_item_count = 0;
  held_item_count = 0;
  updated_at = 100;
}

abbrev batch_store : Store
batch_store = record empty {
  runs =
      record run_one { state = RunState.succeeded; batch_id = some 5; batch_item_id = some 6 } ∷ [];
  batches = batch ∷ [];
  items =
      record {
        id = 6;
        batch_id = 5;
        state = BatchItemState.running;
        run_id = some 1;
        has_snapshot = true;
        max_attempts = some 2;
        initial_backoff_seconds = some 5;
        backoff_cap_seconds = some 60;
        updated_at = 100;
      }
      ∷ [];
}

linked : link (find run_key 1 batch_store.runs) ≡ some (5, 6)
unfolding find
linked = refl

found : find batch_key 5 batch_store.batches ≡ some batch
unfolding find
found = refl

batch_completion_example :
    (t : Store) × (sync_batch_run_state 1 RunState.succeeded 800 batch_store ≡ ok t)
    × (y : Batch) × (find batch_key 5 t.batches ≡ some y)
    × (y.state ≡ BatchState.succeeded)
batch_completion_example =
    batch_completion 1 800 5 6 RunState.succeeded batch_store batch refl linked found refl
