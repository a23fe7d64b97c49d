-- ===== src/Runs/Finish.antt =====
-- `finish_attempt_inner` and its two callers, in crates/scheduler-store/src/lib.rs.
use task_scheduler.Prelude.{
  ℕ, ◌+◌, ◌-◌, ◌/◌, ◌%◌, ◌^◌, min, max, Bool, true, false, ◌&&◌, not, Option, none, some, ◌==◌, ltb,
  if◌then◌else◌, find, update, Result, ok, ◌>>=◌, or_fail,
}
use task_scheduler.Domain.{RunState, ExecutionResult}
use task_scheduler.Domain.Settings.{saturating_mul}
use task_scheduler.Runs.Tables.{
  Attempt, AttemptState, Run, Store, StoreError, AuditEvent, invalid_lease, not_eligible,
  run_succeeded, run_retry_scheduled, run_failed, attempt_late_result, run_key, attempt_key,
  after_seconds, append_audit,
}
use task_scheduler.Runs.Batches.{sync_batch_run_state}
use task_scheduler.Runs.Stats.{
  update_node_processing_stats, update_daily_schedule_stats, outcome_succeeded,
}
use task_scheduler.Runs.Offers.{select_attempt}

-- (finished_at - started_at).num_milliseconds().max(0)
abbrev pub duration_of : ExecutionResult → ℕ
duration_of result = result.finished_at - result.started_at

-- initial.saturating_mul(1 << attempt_count.saturating_sub(1).min(20)).min(cap)
unfoldable pub backoff_base : ℕ → ℕ → ℕ → ℕ
backoff_base initial cap attempt_count =
    min (saturating_mul initial (2 ^ min (attempt_count - 1) 20)) cap

-- The greatest jitter: (base / 5).max(1)
abbrev pub jitter_bound : ℕ → ℕ
jitter_bound base = max (base / 5) 1

-- The columns of a stored result.
abbrev pub store_result : AttemptState → ExecutionResult → ℕ → Attempt → Attempt
store_result state result now a = record a {
  state = state;
  outcome = some result.outcome;
  diagnostic = result.diagnostic;
  output = some result.output;
  exit_code = result.exit_code;
  signal = result.signal;
  duration_ms = some (duration_of result);
  started_at = some result.started_at;
  finished_at = some result.finished_at;
  updated_at = now;
}

-- The state of the run after a result.
abbrev pub state_after : ExecutionResult → Run → RunState
state_after result r =
    if outcome_succeeded result.outcome
    then RunState.succeeded
    else if ltb r.attempt_count r.max_attempts
    then RunState.queued
    else RunState.failed

-- UPDATE runs SET state=?,not_before=?,updated_at=? WHERE id=?
abbrev pub settle : RunState → ℕ → ℕ → Run → Run
settle state not_before now r = record r {
  state = state;
  not_before = not_before;
  updated_at = now;
}

abbrev pub is_expiring : AttemptState → Bool
is_expiring AttemptState.expiring = true
is_expiring _ = false

-- matches!(attempt_state, "finished" | "late_result")
abbrev pub is_finished : AttemptState → Bool
is_finished AttemptState.finished = true
is_finished AttemptState.late_result = true
is_finished _ = false

abbrev pub is_cancelled : RunState → Bool
is_cancelled RunState.cancelled = true
is_cancelled _ = false

abbrev pub settled_event : RunState → ℕ → AuditEvent
settled_event RunState.succeeded id = run_succeeded id
settled_event RunState.queued id = run_retry_scheduled id
settled_event _ id = run_failed id

-- `gen_range(0..=bound)` is `jitter bound`. The sum of two `u64` wraps in a release build.
module _ (jitter : ℕ → ℕ) where
  abbrev pub retry_at : Run → ℕ → ℕ
  retry_at r now =
      let base = backoff_base r.initial_backoff_seconds r.backoff_cap_seconds r.attempt_count in
      after_seconds now ((base + jitter (jitter_bound base)) % 2 ^ 64)

  -- The branch for a cancelled run: the result is kept, and the run stays as it is.
  unfoldable pub keep_late_result : Attempt → ExecutionResult → ℕ → Store → Store
  keep_late_result a result now s = append_audit (attempt_late_result a.run_id a.id) (
      update_node_processing_stats a.agent_id result (record s {
        attempts =
            update attempt_key a.id (store_result AttemptState.late_result result now) s.attempts;
      }))

  -- The last branch: the result decides the run.
  unfoldable pub settle_run :
      Attempt → Run → ExecutionResult → ℕ → Store → Result StoreError (Option RunState × Store)
  settle_run a r result now s = do
    let s1 = update_node_processing_stats a.agent_id result (record s {
      attempts = update attempt_key a.id (store_result AttemptState.finished result now) s.attempts;
    })
    let state = state_after result r
    let s2 = record s1 {
      runs = update run_key a.run_id (settle state (retry_at r now) now) s1.runs;
    }
    s3 ←
        sync_batch_run_state a.run_id state now
          (update_daily_schedule_stats a.run_id state result (duration_of result) s2)
    ok (some state, append_audit (settled_event state a.run_id) s3)

  -- From the selected row and its run on.
  unfoldable pub finish_row :
      Attempt
      → Run
      → ExecutionResult
      → Bool
      → ℕ
      → Store
      → Result StoreError (Option RunState × Store)
  finish_row a r result require_expired_lease now s =
      if require_expired_lease && not (is_expiring a.state)
      then ok (none, s)
      else if not require_expired_lease && is_expiring a.state
      then ok (some r.state, s)
      else if is_finished a.state
      then ok (some r.state, s)
      else if is_cancelled r.state
      then ok (some RunState.cancelled, keep_late_result a result now s)
      else settle_run a r result now s

  unfoldable pub finish_attempt_inner :
      ℕ → ℕ → ExecutionResult → Bool → ℕ → Store → Result StoreError (Option RunState × Store)
  finish_attempt_inner attempt_id lease_token result require_expired_lease now s = do
    a ←
        or_fail (select_attempt attempt_id (λ a. a.lease_token == lease_token) s.attempts)
          invalid_lease
    r ← or_fail (find run_key a.run_id s.runs) invalid_lease
    finish_row a r result require_expired_lease now s

  -- `.context("attempt unexpectedly stopped being eligible")`
  unfoldable pub finish_attempt :
      ℕ → ℕ → ExecutionResult → ℕ → Store → Result StoreError (RunState × Store)
  finish_attempt attempt_id lease_token result now s = do
    done ← finish_attempt_inner attempt_id lease_token result false now s
    state ← or_fail done.0 not_eligible
    ok (state, done.1)

  unfoldable pub finish_expired_attempt :
      ℕ → ℕ → ExecutionResult → ℕ → Store → Result StoreError (Option RunState × Store)
  finish_expired_attempt attempt_id lease_token result now s =
      finish_attempt_inner attempt_id lease_token result true now s
