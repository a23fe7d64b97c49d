-- ===== src/Runs/Control.antt =====
-- What an operator does to a run: `cancel_run` and `retry_run` of
-- crates/scheduler-store/src/lib.rs.
use task_scheduler.Prelude.{
  ℕ, String, ◌&&◌, Option, none, some, List, map, ◌==◌, if◌then◌else◌, find, update, matched,
  update_where, keep, Result, ok, ◌>>=◌, ◌>>◌, or_fail, guard,
}
use task_scheduler.Domain.{RunState}
use task_scheduler.Runs.Tables.{
  Attempt, Run, Store, StoreError, run_is_terminal, not_failed, run_cancelled, run_retried, run_key,
  append_audit, is_accepted, is_failed,
}
use task_scheduler.Runs.Batches.{is_active, sync_batch_run_state}
use task_scheduler.Runs.Stats.{increment_cancelled_rollup, decrement_failed_rollup}
use task_scheduler.Runs.Offers.{count_accepted}

abbrev pub cancel : ℕ → Run → Run
cancel now r = record r { state = RunState.cancelled; updated_at = now }

-- UPDATE … WHERE id=? AND state IN ('queued','running') RETURNING schedule_id: the row it changes
abbrev pub select_active : Option Run → Option Run
select_active none = none
select_active (some r) = if is_active r.state then some r else none

-- SELECT agent_id,id FROM attempts WHERE run_id=? AND state='accepted'
abbrev pub accepted_of : ℕ → List Attempt → List (String × ℕ)
accepted_of run_id xs =
    map (λ a. (a.agent_id, a.id)) (keep (λ a. a.run_id == run_id && is_accepted a.state) xs)

unfoldable pub cancel_run : ℕ → ℕ → Store → Result StoreError (List (String × ℕ) × Store)
cancel_run run_id now s = do
  r ← or_fail (select_active (find run_key run_id s.runs)) run_is_terminal
  s1 ← sync_batch_run_state run_id RunState.cancelled now (
      increment_cancelled_rollup r.schedule_id now
        (record s { runs = update run_key run_id (cancel now) s.runs }))
  ok (accepted_of run_id s1.attempts, append_audit (run_cancelled run_id) s1)

abbrev pub restart : ℕ → ℕ → Run → Run
restart accepted now r = record r {
  state = RunState.queued;
  attempt_count = 0;
  attempt_offset = accepted;
  not_before = now;
  updated_at = now;
}

unfoldable pub retry_run : ℕ → ℕ → Store → Result StoreError Store
retry_run run_id now s = do
  let s1 = decrement_failed_rollup run_id now s
  guard (matched run_key run_id (λ r. is_failed r.state) s1.runs) not_failed
  let s2 = record s1 {
    runs =
        update_where run_key run_id (λ r. is_failed r.state)
          (restart (count_accepted run_id s1.attempts) now) s1.runs;
  }
  s3 ← sync_batch_run_state run_id RunState.queued now s2
  ok (append_audit (run_retried run_id) s3)
