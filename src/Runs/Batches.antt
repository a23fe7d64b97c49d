-- ===== src/Runs/Batches.antt =====
-- `sync_batch_run_state_tx` of crates/scheduler-store/src/collection.rs: what a change of a run does
-- to its batch item and its batch.
use task_scheduler.Prelude.{
  ℕ, ◌+◌, ◌≡◌, Bool, true, false, ◌&&◌, not, Option, none, some, List, ◌==◌, ltb, one_if,
  if◌then◌else◌, find, update_where, matched, total, Result, ok, ◌>>=◌, or_fail, arith,
}
use task_scheduler.Domain.{RunState}
use task_scheduler.Runs.Tables.{
  Run, Batch, BatchState, BatchItemState, Store, StoreError, row_not_found, run_key, batch_key,
  item_key, append_audit, batch_reopened, batch_completed,
}

-- The `match run_state`.
abbrev pub item_state : RunState → BatchItemState
item_state RunState.queued = BatchItemState.queued
item_state RunState.running = BatchItemState.running
item_state RunState.succeeded = BatchItemState.succeeded
item_state RunState.failed = BatchItemState.failed
item_state RunState.cancelled = BatchItemState.cancelled

abbrev pub is_active : RunState → Bool
is_active RunState.queued = true
is_active RunState.running = true
is_active _ = false

abbrev pub is_terminal : RunState → Bool
is_terminal s = not (is_active s)

abbrev pub has_succeeded : RunState → Bool
has_succeeded RunState.succeeded = true
has_succeeded _ = false

-- state IN ('succeeded','completed_with_errors')
abbrev pub is_completed : BatchState → Bool
is_completed BatchState.succeeded = true
is_completed BatchState.completed_with_errors = true
is_completed _ = false

abbrev pub batch_is_running : BatchState → Bool
batch_is_running BatchState.running = true
batch_is_running _ = false

-- batch_id=? on a run
abbrev pub in_batch : ℕ → Run → Bool
in_batch b r = elim r.batch_id [ none ↦ false | some c ↦ c == b ]

abbrev pub batch_total : ℕ → List Run → ℕ
batch_total b = total λ r. one_if (in_batch b r)

abbrev pub batch_terminal : ℕ → List Run → ℕ
batch_terminal b = total λ r. one_if (in_batch b r && is_terminal r.state)

abbrev pub batch_succeeded : ℕ → List Run → ℕ
batch_succeeded b = total λ r. one_if (in_batch b r && has_succeeded r.state)

-- UPDATE batch_items … WHERE id=? AND batch_id=?
unfoldable pub set_item : ℕ → ℕ → BatchItemState → ℕ → Store → Store
set_item b item st now s = record s {
  items =
      update_where item_key item (λ i. i.batch_id == b)
        (λ i. record i { state = st; updated_at = now }) s.items;
}

-- The branch for `queued` and `running`: a completed batch is opened again.
unfoldable pub reopen : ℕ → ℕ → ℕ → Store → Store
reopen run_id b now s =
    let open_again = λ (x : Batch). is_completed x.state in
    let t = record s {
      batches =
          update_where batch_key b open_again
            (λ x. record x { state = BatchState.running; updated_at = now }) s.batches;
    } in
    if matched batch_key b open_again s.batches then append_audit (batch_reopened b run_id) t else t

-- The branch for the terminal states: the last run of a batch completes it.
unfoldable pub complete : ℕ → ℕ → Store → Result StoreError Store
complete b now s =
    let all_runs = batch_total b s.runs in
    if ltb 0 all_runs && batch_terminal b s.runs == all_runs
    then (do
      batch ← or_fail (find batch_key b s.batches) row_not_found
      let quarantined = batch.invalid_item_count + batch.poisoned_item_count + batch.held_item_count
      let batch_state =
          if batch_succeeded b s.runs == all_runs && quarantined == 0
          then BatchState.succeeded
          else BatchState.completed_with_errors
      let t = record s {
        batches =
            update_where batch_key b (λ x. batch_is_running x.state)
              (λ x. record x { state = batch_state; updated_at = now }) s.batches;
      }
      if matched batch_key b (λ x. batch_is_running x.state) s.batches
          then ok (append_audit (batch_completed b batch_state) t)
          else ok t)
    else ok s

-- The batch and the item of a run, if it has both.
abbrev pub link : Option Run → Option (ℕ × ℕ)
link none = none
link (some r) = elim r.batch_id [
  | none ↦ none
  | some b ↦ elim r.batch_item_id [ none ↦ none | some i ↦ some (b, i) ]
]

unfoldable pub sync_linked : ℕ → RunState → ℕ → ℕ → ℕ → Store → Result StoreError Store
unfolding set_item reopen complete
sync_linked run_id run_state now b item s =
    let s1 = set_item b item (item_state run_state) now s in
    if is_active run_state then ok (reopen run_id b now s1) else complete b now s1

unfoldable pub sync_link : ℕ → RunState → ℕ → Option (ℕ × ℕ) → Store → Result StoreError Store
unfolding sync_linked
sync_link run_id run_state now none s = ok s
sync_link run_id run_state now (some (b, item)) s = sync_linked run_id run_state now b item s

unfoldable pub sync_batch_run_state : ℕ → RunState → ℕ → Store → Result StoreError Store
unfolding sync_link
sync_batch_run_state run_id run_state now s =
    sync_link run_id run_state now (link (find run_key run_id s.runs)) s

-- Bringing a batch up to date changes neither runs nor attempts.
complete-keeps :
    (b now : ℕ) (s t : Store)
    → complete b now s ≡ ok t
    → (t.runs ≡ s.runs) × (t.attempts ≡ s.attempts)
unfolding complete
complete-keeps b now s t h = ground arith

reopen-keeps :
    (run_id b now : ℕ) (s : Store)
    → ((reopen run_id b now s).runs ≡ s.runs) × ((reopen run_id b now s).attempts ≡ s.attempts)
unfolding reopen
reopen-keeps run_id b now s = ground arith

sync_linked-keeps :
    (run_id : ℕ) (run_state : RunState) (now b item : ℕ) (s t : Store)
    → sync_linked run_id run_state now b item s ≡ ok t
    → (t.runs ≡ s.runs) × (t.attempts ≡ s.attempts)
unfolding sync_linked
sync_linked-keeps run_id run_state now b item s t h = ground (
  arith,
  complete-keeps b now (set_item b item (item_state run_state) now s) t,
  reopen-keeps run_id b now (set_item b item (item_state run_state) now s),
)

sync_link-keeps :
    (run_id : ℕ) (run_state : RunState) (now : ℕ) (l : Option (ℕ × ℕ)) (s t : Store)
    → sync_link run_id run_state now l s ≡ ok t
    → (t.runs ≡ s.runs) × (t.attempts ≡ s.attempts)
unfolding sync_link
sync_link-keeps run_id run_state now none s t h = ground arith
sync_link-keeps run_id run_state now (some (b, item)) s t h =
    sync_linked-keeps run_id run_state now b item s t h

pub sync-keeps :
    (run_id : ℕ) (run_state : RunState) (now : ℕ) (s t : Store)
    → sync_batch_run_state run_id run_state now s ≡ ok t
    → (t.runs ≡ s.runs) × (t.attempts ≡ s.attempts)
unfolding sync_batch_run_state
sync-keeps run_id run_state now s t h =
    sync_link-keeps run_id run_state now (link (find run_key run_id s.runs)) s t h
