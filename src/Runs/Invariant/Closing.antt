-- ===== src/Runs/Invariant/Closing.antt =====
-- The transactions of Runs/Finish and Runs/Control and the invariant.
use task_scheduler.Prelude.{
  or_fail-ok, ℕ, ◌≤◌, String, ◌≡◌, ◌≢◌, refl, sym, subst, Bool, true, false, Option, none, some,
  List, [], ◌∷◌, ◌==◌, find, update, update_where, matched, arith, if◌then◌else◌, Bool-cases, inl,
  inr, ◌⊎◌, ok, ◌>>=◌, >>=-eq-ok, or_fail, guard,
}
use task_scheduler.Domain.{RunState, ExecutionResult}
use task_scheduler.Runs.Tables.{
  Attempt, AttemptState, Run, Store, invalid_lease, not_eligible, run_is_terminal, not_failed,
  run_key, attempt_key, is_failed,
}
use task_scheduler.Runs.Batches.{sync_batch_run_state, sync-keeps, is_active}
use task_scheduler.Runs.Stats.{
  update_node_processing_stats, update_daily_schedule_stats, increment_cancelled_rollup,
  decrement_failed_rollup,
}
use task_scheduler.Runs.Offers.{selected, select_attempt, count_accepted}
use task_scheduler.Runs.Finish.{
  store_result, state_after, settle, retry_at, is_cancelled, keep_late_result, settle_run,
  finish_row, finish_attempt_inner, finish_attempt, finish_expired_attempt,
}
use task_scheduler.Runs.Control.{cancel, select_active, cancel_run, restart, retry_run}
use task_scheduler.Runs.Invariant.Tally.{
  tally, RunFits, Inv, Inv-same, Tally, is_live, pending-le-live,
}
use task_scheduler.Runs.Invariant.Change.{change-Inv, change_run-Inv, Moves}

update_same : (k : ℕ) (runs : List Run) → update run_key k (λ r. r) runs ≡ runs
unfolding update
update_same k [] = refl
update_same k (r ∷ runs) = ground (arith, update_same k runs)

-- A result ends a live attempt of a run that is not cancelled.
settle-RunFits :
    (a : Attempt) (r : Run) (result : ExecutionResult) (not_before now : ℕ)
    → is_live a.state ≡ true
    → is_cancelled r.state ≡ false
    → (u v : Tally) → Moves a (store_result AttemptState.finished result now a) u v
    → RunFits r u
    → RunFits (settle (state_after result r) not_before now r) v
settle-RunFits a r result not_before now l c u v m fits = ground arith

late-RunFits :
    (a : Attempt) (r : Run) (result : ExecutionResult) (now : ℕ)
    → is_cancelled r.state ≡ true
    → (u v : Tally) → Moves a (store_result AttemptState.late_result result now a) u v
    → RunFits r u
    → RunFits r v
late-RunFits a r result now c u v m fits = ground arith

module _ (jitter : ℕ → ℕ) (a : Attempt) (r : Run) (result : ExecutionResult) (now : ℕ) (s : Store)
    (found : find attempt_key a.id s.attempts ≡ some a)
    (owner : find run_key a.run_id s.runs ≡ some r) where
  keep_late-Inv :
      is_cancelled r.state ≡ true
      → Inv s.runs s.attempts
      → let t = keep_late_result jitter a result now s in Inv t.runs t.attempts
  unfolding keep_late_result update_node_processing_stats
  keep_late-Inv c inv = Inv-same (sym (update_same a.run_id s.runs)) refl (
      change-Inv s.runs s.attempts a.id a (store_result AttemptState.late_result result now) found
        refl (λ r'. r') (λ r'. refl)
        (λ r' e m fits. late-RunFits a r' result now (ground arith) _ _ m fits) inv)

  settle_run-Inv :
      (o : Option RunState) (t : Store)
      → is_live a.state ≡ true
      → is_cancelled r.state ≡ false
      → settle_run jitter a r result now s ≡ ok (o, t)
      → Inv s.runs s.attempts
      → Inv t.runs t.attempts
  unfolding settle_run update_node_processing_stats update_daily_schedule_stats
  settle_run-Inv o t l c h inv =
      let state = state_after result r in
      let g = settle state (retry_at jitter r now) now in
      let (s3, synced, h1) = >>=-eq-ok (sync_batch_run_state a.run_id state now _) _ h in
      let kept = sync-keeps a.run_id state now _ s3 synced in
      let same : (t.runs ≡ update run_key a.run_id g s.runs)
          × (t.attempts
              ≡ update attempt_key a.id (store_result AttemptState.finished result now)
                  s.attempts) =
        ground arith in
      Inv-same same.0 same.1 (
        change-Inv s.runs s.attempts a.id a (store_result AttemptState.finished result now) found
          refl g (λ r'. refl)
          (λ r' e m fits.
            let one : r ≡ r' = cc in
            subst
              (λ x. RunFits (g x) (
                tally a.run_id (
                  update attempt_key a.id (store_result AttemptState.finished result now)
                    s.attempts)))
              one
              (settle-RunFits a r result (retry_at jitter r now) now l c _ _ m
                (subst (λ x. RunFits x (tally a.run_id s.attempts)) (sym one) fits)))
          inv)

  pub finish_row-cases :
      (require : Bool) (o : Option RunState) (t : Store)
      → a.state ≢ AttemptState.offer_failed
      → finish_row jitter a r result require now s ≡ ok (o, t)
      → (t ≡ s)
        ⊎ ((is_cancelled r.state ≡ true) × (t ≡ keep_late_result jitter a result now s))
        ⊎ ((is_live a.state ≡ true)
            × (is_cancelled r.state ≡ false)
            × (settle_run jitter a r result now s ≡ ok (o, t)))
  unfolding finish_row
  finish_row-cases require o t n h = ground arith

  finish_row-Inv :
      (require : Bool) (o : Option RunState) (t : Store)
      → a.state ≢ AttemptState.offer_failed
      → finish_row jitter a r result require now s ≡ ok (o, t)
      → Inv s.runs s.attempts
      → Inv t.runs t.attempts
  finish_row-Inv require o t n h inv = elim (finish_row-cases require o t n h) [
    | inl e ↦ rw e inv
    | inr (inl (c, e)) ↦ rw e (keep_late-Inv c inv)
    | inr (inr (l, c, h1)) ↦ settle_run-Inv o t l c h1 inv
  ]

-- No result is sent for an offer that could not be delivered.
abbrev pub Delivered : ℕ → Store → Type 0
Delivered attempt_id s =
    (a : Attempt)
    → find attempt_key attempt_id s.attempts ≡ some a
    → a.state ≢ AttemptState.offer_failed

pub eligible-same :
    (o : Option RunState) (u : Store) (state : RunState) (t : Store)
    → ◌>>=◌ {B = RunState × Store} (or_fail o not_eligible) (λ x. ok (x, u)) ≡ ok (state, t)
    → u ≡ t
eligible-same none u state t h = ground arith
eligible-same (some x) u state t h = ground arith

module _ (jitter : ℕ → ℕ) (attempt_id lease_token : ℕ) (result : ExecutionResult) (now : ℕ)
    (s : Store) where
  pub finish_attempt_inner-Inv :
      (require : Bool) (o : Option RunState) (t : Store)
      → Delivered attempt_id s
      → finish_attempt_inner jitter attempt_id lease_token result require now s ≡ ok (o, t)
      → Inv s.runs s.attempts
      → Inv t.runs t.attempts
  unfolding finish_attempt_inner
  finish_attempt_inner-Inv require o t d h inv =
      let p = λ (a : Attempt). a.lease_token == lease_token in
      let (a, e, h1) =
        >>=-eq-ok (or_fail (select_attempt attempt_id p s.attempts) invalid_lease) _ h in
      let (found, _, key) = selected attempt_id p s.attempts a (or_fail-ok _ invalid_lease a e) in
      let (r, owner, h2) = >>=-eq-ok (or_fail (find run_key a.run_id s.runs) invalid_lease) _ h1 in
      finish_row-Inv jitter a r result now s found (or_fail-ok _ invalid_lease r owner) require o t
        (d a (subst (λ j. find attempt_key j s.attempts ≡ some a) key found)) h2 inv

  pub finish_attempt-Inv :
      (state : RunState) (t : Store)
      → Delivered attempt_id s
      → finish_attempt jitter attempt_id lease_token result now s ≡ ok (state, t)
      → Inv s.runs s.attempts
      → Inv t.runs t.attempts
  unfolding finish_attempt
  finish_attempt-Inv state t d h inv =
      let ((o, u), e, h1) =
        >>=-eq-ok (finish_attempt_inner jitter attempt_id lease_token result false now s) _ h in
      let same : u ≡ t = eligible-same o u state t h1 in
      finish_attempt_inner-Inv false o t d
        (subst
          (λ x. finish_attempt_inner jitter attempt_id lease_token result false now s ≡ ok (o, x))
          same e)
        inv

  pub finish_expired_attempt-Inv :
      (o : Option RunState) (t : Store)
      → Delivered attempt_id s
      → finish_expired_attempt jitter attempt_id lease_token result now s ≡ ok (o, t)
      → Inv s.runs s.attempts
      → Inv t.runs t.attempts
  unfolding finish_expired_attempt
  finish_expired_attempt-Inv o t d h inv = finish_attempt_inner-Inv true o t d h inv

cancel-RunFits :
    (r : Run) (t : Tally) (now : ℕ)
    → is_active r.state ≡ true
    → RunFits r t
    → RunFits (cancel now r) t
cancel-RunFits r t now e fits = ground arith

pub cancel_run-Inv :
    (run_id now : ℕ) (s t : Store) (o : List (String × ℕ))
    → cancel_run run_id now s ≡ ok (o, t)
    → Inv s.runs s.attempts
    → Inv t.runs t.attempts
unfolding cancel_run increment_cancelled_rollup
cancel_run-Inv run_id now s t o h inv =
    let (r, e, h1) =
      >>=-eq-ok (or_fail (select_active (find run_key run_id s.runs)) run_is_terminal) _ h in
    let (s1, synced, h2) = >>=-eq-ok (sync_batch_run_state run_id RunState.cancelled now _) _ h1 in
    let kept = sync-keeps run_id RunState.cancelled now _ s1 synced in
    let same : (t.runs ≡ update run_key run_id (cancel now) s.runs) × (t.attempts ≡ s.attempts) =
      ground arith in
    Inv-same same.0 same.1 (
      change_run-Inv s.runs s.attempts run_id (cancel now) (λ r'. refl)
        (λ r' e' fits. cancel-RunFits r' _ now (ground arith) fits) inv)

restart-RunFits :
    (r : Run) (t : Tally) (n now : ℕ)
    → is_failed r.state ≡ true
    → n ≡ t.accepted
    → t.pending ≤ t.live
    → RunFits r t
    → RunFits (restart n now r) t
restart-RunFits r t n now f e p fits = ground arith

unfoldable pub restart_failed : ℕ → ℕ → Run → Run
restart_failed n now r = if is_failed r.state then restart n now r else r

restart_failed-RunFits :
    (r : Run) (xs : List Attempt) (k now : ℕ)
    → RunFits r (tally k xs)
    → RunFits (restart_failed (count_accepted k xs) now r) (tally k xs)
unfolding restart_failed count_accepted
restart_failed-RunFits r xs k now fits = elim (Bool-cases (is_failed r.state)) [
  | inl f ↦
      rw f (
        restart-RunFits r (tally k xs) (count_accepted k xs) now f refl (pending-le-live k xs) fits)
  | inr f ↦ rw f fits
]

pub restart_failed-id : (n now : ℕ) (r : Run) → (restart_failed n now r).id ≡ r.id
unfolding restart_failed
restart_failed-id n now r = ground arith

pub retry_run-Inv :
    (run_id now : ℕ) (s t : Store)
    → retry_run run_id now s ≡ ok t
    → Inv s.runs s.attempts
    → Inv t.runs t.attempts
unfolding retry_run decrement_failed_rollup update_where restart_failed
retry_run-Inv run_id now s t h inv =
    let (failed, g, h1) =
      >>=-eq-ok (guard (matched run_key run_id (λ r. is_failed r.state) s.runs) not_failed) _ h in
    let (s3, synced, h2) = >>=-eq-ok (sync_batch_run_state run_id RunState.queued now _) _ h1 in
    let kept = sync-keeps run_id RunState.queued now _ s3 synced in
    let n = count_accepted run_id s.attempts in
    let same : (t.runs ≡ update run_key run_id (restart_failed n now) s.runs)
        × (t.attempts ≡ s.attempts) =
      ground arith in
    Inv-same same.0 same.1 (
      change_run-Inv s.runs s.attempts run_id (restart_failed n now) (restart_failed-id n now)
        (λ r e fits. restart_failed-RunFits r s.attempts run_id now fits) inv)
