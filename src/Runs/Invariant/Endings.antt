-- ===== src/Runs/Invariant/Endings.antt =====
-- Runs/Finish and Runs/Control along the diagram of Runs/Invariant/Rows.
use task_scheduler.Prelude.{
  or_fail-ok, ℕ, String, ◌≡◌, ◌≢◌, refl, subst, ap, Bool, true, false, Option, some, List, ◌==◌,
  find, update_where, matched, arith, inl, inr, ok, >>=-eq-ok, or_fail, guard, ==_refl,
}
use task_scheduler.Domain.{RunState, ExecutionResult}
use task_scheduler.Runs.Tables.{
  Attempt, AttemptState, Run, Store, run_key, attempt_key, is_failed, is_running, invalid_lease,
  run_is_terminal, not_failed,
}
use task_scheduler.Runs.Batches.{sync_batch_run_state, sync-keeps}
use task_scheduler.Runs.Stats.{
  update_node_processing_stats, update_daily_schedule_stats, increment_cancelled_rollup,
  decrement_failed_rollup,
}
use task_scheduler.Runs.Offers.{selected, select_attempt, count_accepted}
use task_scheduler.Runs.Finish.{
  state_after, settle, is_cancelled, keep_late_result, settle_run, finish_row, finish_attempt_inner,
  finish_attempt, finish_expired_attempt, retry_at,
}
use task_scheduler.Runs.Control.{cancel, select_active, cancel_run, retry_run}
use task_scheduler.Runs.Invariant.Tally.{live_of, tally, Fits, Inv, total-find, is_live}
use task_scheduler.Runs.Invariant.Rows.{may_follow, Follow, same-Follow, update-Follow}
use task_scheduler.Runs.Invariant.Closing.{
  Delivered, finish_row-cases, eligible-same, restart_failed, restart_failed-id,
}

-- The run of a live attempt is running, unless it was cancelled.
live-running :
    (runs : List Run) (xs : List Attempt) (a : Attempt) (r : Run)
    → Inv runs xs
    → find attempt_key a.id xs ≡ some a
    → find run_key a.run_id runs ≡ some r
    → is_live a.state ≡ true
    → is_cancelled r.state ≡ false
    → is_running r.state ≡ true
live-running runs xs a r inv found owner l c =
    let fits = subst (λ o. Fits o (tally a.run_id xs)) owner (inv a.run_id) in
    let some_live = total-find (live_of a.run_id) a.id xs a found in
    let lives = fits.lives in let self = ==_refl a.run_id in ground arith

settle-follows :
    (r : Run) (result : ExecutionResult) (not_before now : ℕ)
    → is_running r.state ≡ true
    → may_follow r.state (settle (state_after result r) not_before now r).state ≡ true
unfolding may_follow
settle-follows r result not_before now h = ground arith

module _ (jitter : ℕ → ℕ) (a : Attempt) (r : Run) (result : ExecutionResult) (now : ℕ)
    (s : Store) where
  keep_late-runs : (keep_late_result jitter a result now s).runs ≡ s.runs
  unfolding keep_late_result update_node_processing_stats
  keep_late-runs = refl

  settle_run-Follow :
      (o : Option RunState) (t : Store)
      → find run_key a.run_id s.runs ≡ some r
      → is_running r.state ≡ true
      → settle_run jitter a r result now s ≡ ok (o, t)
      → Follow s.runs t.runs
  unfolding settle_run update_node_processing_stats update_daily_schedule_stats
  settle_run-Follow o t owner running h =
      let state = state_after result r in
      let (s3, synced, h1) = >>=-eq-ok (sync_batch_run_state a.run_id state now _) _ h in
      let kept = sync-keeps a.run_id state now _ s3 synced in
      update-Follow a.run_id (settle state (retry_at jitter r now) now) s.runs t.runs (ground arith)
        (λ r'. refl)
        (λ r' e.
          let one : r ≡ r' = cc in
          subst (λ x. may_follow x.state state ≡ true) one
            (settle-follows r result (retry_at jitter r now) now running))

  finish_row-Follow :
      (require : Bool) (o : Option RunState) (t : Store)
      → Inv s.runs s.attempts
      → find attempt_key a.id s.attempts ≡ some a
      → find run_key a.run_id s.runs ≡ some r
      → a.state ≢ AttemptState.offer_failed
      → finish_row jitter a r result require now s ≡ ok (o, t)
      → Follow s.runs t.runs
  finish_row-Follow require o t inv found owner n h =
      elim (finish_row-cases jitter a r result now s found owner require o t n h) [
        | inl e ↦ same-Follow s.runs t.runs (ap (λ u. u.runs) e)
        | inr (inl (c, e)) ↦ same-Follow s.runs t.runs (rw e keep_late-runs)
        | inr (inr (l, c, h1)) ↦
            settle_run-Follow o t owner (live-running s.runs s.attempts a r inv found owner l c) h1
      ]

module _ (jitter : ℕ → ℕ) (attempt_id lease_token : ℕ) (result : ExecutionResult) (now : ℕ)
    (s : Store) where
  finish_attempt_inner-Follow :
      (require : Bool) (o : Option RunState) (t : Store)
      → Delivered attempt_id s
      → finish_attempt_inner jitter attempt_id lease_token result require now s ≡ ok (o, t)
      → Inv s.runs s.attempts
      → Follow s.runs t.runs
  unfolding finish_attempt_inner
  finish_attempt_inner-Follow require o t d h inv =
      let p = λ (a : Attempt). a.lease_token == lease_token in
      let (a, e, h1) =
        >>=-eq-ok (or_fail (select_attempt attempt_id p s.attempts) invalid_lease) _ h in
      let (found, _, key) = selected attempt_id p s.attempts a (or_fail-ok _ invalid_lease a e) in
      let (r, owner, h2) = >>=-eq-ok (or_fail (find run_key a.run_id s.runs) invalid_lease) _ h1 in
      finish_row-Follow jitter a r result now s require o t inv found
        (or_fail-ok _ invalid_lease r owner)
        (d a (subst (λ j. find attempt_key j s.attempts ≡ some a) key found)) h2

  pub finish_attempt-Follow :
      (state : RunState) (t : Store)
      → Delivered attempt_id s
      → finish_attempt jitter attempt_id lease_token result now s ≡ ok (state, t)
      → Inv s.runs s.attempts
      → Follow s.runs t.runs
  unfolding finish_attempt
  finish_attempt-Follow state t d h inv =
      let ((o, u), e, h1) =
        >>=-eq-ok (finish_attempt_inner jitter attempt_id lease_token result false now s) _ h in
      let same : u ≡ t = eligible-same o u state t h1 in
      subst (λ x. Follow s.runs x.runs) same (finish_attempt_inner-Follow false o u d e inv)

  pub finish_expired_attempt-Follow :
      (o : Option RunState) (t : Store)
      → Delivered attempt_id s
      → finish_expired_attempt jitter attempt_id lease_token result now s ≡ ok (o, t)
      → Inv s.runs s.attempts
      → Follow s.runs t.runs
  unfolding finish_expired_attempt
  finish_expired_attempt-Follow o t d h inv = finish_attempt_inner-Follow true o t d h inv

cancel-follows :
    (o : Option Run) (r r' : Run) (now : ℕ)
    → select_active o ≡ some r
    → o ≡ some r'
    → may_follow r'.state (cancel now r').state ≡ true
unfolding may_follow
cancel-follows o r r' now e f = ground arith

pub cancel_run-Follow :
    (run_id now : ℕ) (s t : Store) (o : List (String × ℕ))
    → cancel_run run_id now s ≡ ok (o, t)
    → Follow s.runs t.runs
unfolding cancel_run increment_cancelled_rollup
cancel_run-Follow run_id now s t o h =
    let (r, e, h1) =
      >>=-eq-ok (or_fail (select_active (find run_key run_id s.runs)) run_is_terminal) _ h in
    let (s1, synced, h2) = >>=-eq-ok (sync_batch_run_state run_id RunState.cancelled now _) _ h1 in
    let kept = sync-keeps run_id RunState.cancelled now _ s1 synced in
    update-Follow run_id (cancel now) s.runs t.runs (ground arith) (λ r'. refl)
      (λ r' f. cancel-follows _ r r' now (or_fail-ok _ run_is_terminal r e) f)

restart-follows : (n now : ℕ) (r : Run) → may_follow r.state (restart_failed n now r).state ≡ true
unfolding may_follow restart_failed
restart-follows n now r = ground arith

pub retry_run-Follow :
    (run_id now : ℕ) (s t : Store) → retry_run run_id now s ≡ ok t → Follow s.runs t.runs
unfolding retry_run decrement_failed_rollup update_where restart_failed
retry_run-Follow run_id now s t h =
    let (failed, g, h1) =
      >>=-eq-ok (guard (matched run_key run_id (λ r. is_failed r.state) s.runs) not_failed) _ h in
    let (s3, synced, h2) = >>=-eq-ok (sync_batch_run_state run_id RunState.queued now _) _ h1 in
    let kept = sync-keeps run_id RunState.queued now _ s3 synced in
    let n = count_accepted run_id s.attempts in
    update-Follow run_id (restart_failed n now) s.runs t.runs (ground arith)
      (restart_failed-id n now) (λ r _. restart-follows n now r)
