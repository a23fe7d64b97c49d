-- ===== src/Runs/Completion.antt =====
-- When a batch is complete: `sync_batch_run_state_tx` of crates/scheduler-store/src/collection.rs.
use task_scheduler.Prelude.{
  ℕ, ◌+◌, ◌≤◌, ◌≡◌, refl, Bool, true, false, ◌&&◌, ◌||◌, not, some, List, [], ◌∷◌, ◌==◌, ltb,
  one_if, if◌then◌else◌, any, all, find, update_where, matched, find-updated, total, ok, arith,
  Bool-cases, inl, inr, sym, ◌∙◌,
}
use task_scheduler.Domain.{RunState}
use task_scheduler.Runs.Tables.{
  Run, Batch, BatchState, Store, run_key, batch_key, append_audit, batch_completed,
}
use task_scheduler.Runs.Batches.{
  is_terminal, has_succeeded, batch_is_running, in_batch, batch_total, batch_terminal,
  batch_succeeded, item_state, set_item, complete, link, sync_linked, sync_link,
  sync_batch_run_state,
}

-- What is to become of a running batch: it stays so until it has runs and all are terminal, and it
-- succeeds if all its runs succeeded and none of its items was put aside.
abbrev pub state_due : ℕ → Batch → List Run → BatchState
state_due b x runs =
    if any (in_batch b) runs && all (λ r. not (in_batch b r) || is_terminal r.state) runs
    then if all (λ r. not (in_batch b r) || has_succeeded r.state) runs
        && x.invalid_item_count + x.poisoned_item_count + x.held_item_count == 0
      then BatchState.succeeded
      else BatchState.completed_with_errors
    else BatchState.running

total-both :
    (p q : Run → Bool) (runs : List Run)
    → total (λ r. one_if (p r && q r)) runs ≤ total (λ r. one_if (p r)) runs
unfolding total
total-both p q [] = omega arith
total-both p q (r ∷ runs) = ground (arith, total-both p q runs)

total-all :
    (p q : Run → Bool) (runs : List Run)
    → (total (λ r. one_if (p r && q r)) runs == total (λ r. one_if (p r)) runs)
      ≡ all (λ r. not (p r) || q r) runs
unfolding total
total-all p q [] = refl
total-all p q (r ∷ runs) = ground (arith, total-all p q runs, total-both p q runs)

total-any : (p : Run → Bool) (runs : List Run) → ltb 0 (total (λ r. one_if (p r)) runs) ≡ any p runs
unfolding total
total-any p [] = refl
total-any p (r ∷ runs) = ground (arith, total-any p runs)

-- The code's test for the end of a batch, and its state then.
abbrev ended : ℕ → List Run → Bool
ended b runs = ltb 0 (batch_total b runs) && batch_terminal b runs == batch_total b runs

abbrev end_state : ℕ → Batch → List Run → BatchState
end_state b x runs =
    if batch_succeeded b runs == batch_total b runs
      && x.invalid_item_count + x.poisoned_item_count + x.held_item_count == 0
    then BatchState.succeeded
    else BatchState.completed_with_errors

state_due-ended :
    (b : ℕ) (x : Batch) (runs : List Run)
    → state_due b x runs ≡ (if ended b runs then end_state b x runs else BatchState.running)
state_due-ended b x runs =
    rw
      (
        total-any (in_batch b) runs,
        total-all (in_batch b) (λ r. is_terminal r.state) runs,
        total-all (in_batch b) (λ r. has_succeeded r.state) runs,
      )
      refl

running-state : (x : Batch) → batch_is_running x.state ≡ true → x.state ≡ BatchState.running
running-state x h = ground arith

module _ (b now : ℕ) (s : Store) (x : Batch) (found : find batch_key b s.batches ≡ some x)
    (running : batch_is_running x.state ≡ true) where
  abbrev closed : Store
  closed = append_audit (batch_completed b (end_state b x s.runs)) (record s {
    batches =
        update_where batch_key b (λ y. batch_is_running y.state)
          (λ y. record y { state = end_state b x s.runs; updated_at = now }) s.batches;
  })

  closed-batch :
      find batch_key b closed.batches
      ≡ some (record x { state = end_state b x s.runs; updated_at = now })
  unfolding update_where
  closed-batch =
      let f = λ (y : Batch).
        if batch_is_running y.state
        then record y { state = end_state b x s.runs; updated_at = now }
        else y in
      ground (arith, find-updated batch_key b f s.batches x (λ y. ground arith) found)

  complete-ended : ended b s.runs ≡ true → complete b now s ≡ ok closed
  unfolding complete matched update_where
  complete-ended e = rw (e, found, running) refl

  complete-open : ended b s.runs ≡ false → complete b now s ≡ ok s
  unfolding complete
  complete-open e = rw e refl

  complete-due :
      (t : Store) × (complete b now s ≡ ok t)
      × (y : Batch) × (find batch_key b t.batches ≡ some y)
      × (y.state ≡ state_due b x s.runs)
  complete-due = elim (Bool-cases (ended b s.runs)) [
    | inl e ↦ (
      closed,
      complete-ended e,
      record x { state = end_state b x s.runs; updated_at = now },
      closed-batch,
      rw (state_due-ended b x s.runs, e) refl,
    )
    | inr e ↦ (
      s,
      complete-open e,
      x,
      found,
      running-state x running ∙ sym (rw (state_due-ended b x s.runs, e) refl),
    )
  ]

-- When a run of a running batch has ended, the update of its batch succeeds, and leaves the batch in the
-- state that is due: running until all its runs are terminal, and then succeeded if all of them
-- succeeded and no item was put aside, and completed with errors otherwise.
pub batch_completion :
    (run_id now b item : ℕ) (run_state : RunState) (s : Store) (x : Batch)
    → is_terminal run_state ≡ true
    → link (find run_key run_id s.runs) ≡ some (b, item)
    → find batch_key b s.batches ≡ some x
    → batch_is_running x.state ≡ true
    → (t : Store) × (sync_batch_run_state run_id run_state now s ≡ ok t)
      × (y : Batch) × (find batch_key b t.batches ≡ some y)
      × (y.state ≡ state_due b x s.runs)
unfolding sync_batch_run_state sync_link sync_linked set_item
batch_completion run_id now b item run_state s x ended linked found running =
    let s1 = set_item b item (item_state run_state) now s in
    let (t, e, y, there, due) = complete-due b now s1 x found running in
    (t, ground arith, y, there, due)
