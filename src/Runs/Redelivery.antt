-- ===== src/Runs/Redelivery.antt =====
-- A result that is delivered more than once: `finish_attempt` in crates/scheduler-store/src/lib.rs.
use task_scheduler.Prelude.{
  or_fail-ok, ℕ, ◌≡◌, refl, sym, ◌∙◌, subst, Bool, true, false, ◌||◌, Option, none, some, List,
  ◌==◌, find, update, find-updated, ok, ◌>>=◌, >>=-eq-ok, >>=-of-ok, or_fail, inl, inr, ◌⊎◌, arith,
}
use mathlib.Core.Path.{subst₂}
use task_scheduler.Domain.{RunState, ExecutionResult}
use task_scheduler.Runs.Tables.{
  Attempt, AttemptState, Run, Store, StoreError, invalid_lease, not_eligible, run_key, attempt_key,
}
use task_scheduler.Runs.Batches.{sync_batch_run_state, sync-keeps}
use task_scheduler.Runs.Stats.{update_node_processing_stats, update_daily_schedule_stats}
use task_scheduler.Runs.Offers.{selected, select_attempt}
use task_scheduler.Runs.Finish.{
  is_expiring, is_finished, is_cancelled, store_result, settle, state_after, retry_at,
  keep_late_result, settle_run, finish_row, finish_attempt_inner, finish_attempt,
}

abbrev is_done : AttemptState → Bool
is_done x = is_expiring x || is_finished x

-- What a result finds of a done attempt: the state of its run.
record Settled (attempt_id lease_token : ℕ) (o : Option RunState) (t : Store) : Type 0 where
  a : Attempt
  r : Run
  found : find attempt_key attempt_id t.attempts ≡ some a
  token : (a.lease_token == lease_token) ≡ true
  is_settled : is_done a.state ≡ true
  owner : find run_key a.run_id t.runs ≡ some r
  answer : o ≡ some r.state

finish_row-done :
    (jitter : ℕ → ℕ) (a : Attempt) (r : Run) (result : ExecutionResult) (now : ℕ) (s : Store)
    → is_done a.state ≡ true
    → finish_row jitter a r result false now s ≡ ok (some r.state, s)
unfolding finish_row
finish_row-done jitter a r result now s d = ground arith

Settled-again :
    (jitter : ℕ → ℕ) (attempt_id lease_token : ℕ) (result : ExecutionResult) (now : ℕ)
    (state : RunState) (t : Store)
    → Settled attempt_id lease_token (some state) t
    → finish_attempt jitter attempt_id lease_token result now t ≡ ok (state, t)
unfolding finish_attempt finish_attempt_inner
Settled-again jitter attempt_id lease_token result now state t d =
    let done = finish_row-done jitter d.a d.r result now t d.is_settled in
    let p = λ (a : Attempt). a.lease_token == lease_token in
    let selection : or_fail {E = StoreError} (select_attempt attempt_id p t.attempts) invalid_lease
        ≡ ok d.a =
      ground arith in
    let owner : or_fail {E = StoreError} (find run_key d.a.run_id t.runs) invalid_lease ≡ ok d.r =
      rw d.owner refl in
    let inner : finish_attempt_inner jitter attempt_id lease_token result false now t
        ≡ ok (some state, t) =
      >>=-of-ok (or_fail (select_attempt attempt_id p t.attempts) invalid_lease) _ d.a selection (
        >>=-of-ok (or_fail (find run_key d.a.run_id t.runs) invalid_lease) _ d.r owner
          (rw d.answer done)) in
    >>=-of-ok (finish_attempt_inner jitter attempt_id lease_token result false now t) _
      (some state, t) inner refl

module _ (jitter : ℕ → ℕ) (a : Attempt) (r : Run) (result : ExecutionResult) (now : ℕ)
    (s : Store) where
  finish_row-answers :
      (o : Option RunState) (t : Store)
      → finish_row jitter a r result false now s ≡ ok (o, t)
      → ((is_done a.state ≡ true) × (o ≡ some r.state) × (t ≡ s))
        ⊎ ((is_cancelled r.state ≡ true)
            × (o ≡ some RunState.cancelled)
            × (t ≡ keep_late_result jitter a result now s))
        ⊎ (settle_run jitter a r result now s ≡ ok (o, t))
  unfolding finish_row
  finish_row-answers o t h = ground arith

  keep_late-rows :
      let t = keep_late_result jitter a result now s in
      (t.runs ≡ s.runs)
      × (t.attempts
          ≡ update attempt_key a.id (store_result AttemptState.late_result result now) s.attempts)
  unfolding keep_late_result update_node_processing_stats
  keep_late-rows = (refl, refl)

  settle_run-rows :
      (o : Option RunState) (t : Store)
      → settle_run jitter a r result now s ≡ ok (o, t)
      → (o ≡ some (state_after result r))
        × (t.runs
            ≡ update run_key a.run_id
                (settle (state_after result r) (retry_at jitter r now) now)
                s.runs)
        × (t.attempts
            ≡ update attempt_key a.id (store_result AttemptState.finished result now) s.attempts)
  unfolding settle_run update_node_processing_stats update_daily_schedule_stats
  settle_run-rows o t h =
      let state = state_after result r in
      let (s3, synced, h1) = >>=-eq-ok (sync_batch_run_state a.run_id state now _) _ h in
      let kept = sync-keeps a.run_id state now _ s3 synced in ground arith

  module _ (attempt_id lease_token : ℕ) (found : find attempt_key attempt_id s.attempts ≡ some a)
      (key : a.id ≡ attempt_id) (token : (a.lease_token == lease_token) ≡ true)
      (owner : find run_key a.run_id s.runs ≡ some r) where
    stored :
        (state : AttemptState) (xs : List Attempt)
        → xs ≡ update attempt_key a.id (store_result state result now) s.attempts
        → find attempt_key attempt_id xs ≡ some (store_result state result now a)
    stored state xs e =
        let f = store_result state result now in
        rw e (
          subst (λ j. find attempt_key attempt_id (update attempt_key j f s.attempts) ≡ some (f a))
            (sym key) (find-updated attempt_key attempt_id f s.attempts a (λ x. refl) found))

    finish_row-Settled :
        (o : Option RunState) (t : Store)
        → finish_row jitter a r result false now s ≡ ok (o, t)
        → Settled attempt_id lease_token o t
    finish_row-Settled o t h = elim (finish_row-answers o t h) [
      | inl (d, e, same) ↦ subst (Settled attempt_id lease_token o) (sym same) (record {
        a = a;
        r = r;
        found = found;
        token = token;
        is_settled = d;
        owner = owner;
        answer = e;
      })
      | inr (inl (c, e, same)) ↦
          let (runs, attempts) = keep_late-rows in
          subst (Settled attempt_id lease_token o) (sym same) (record {
            a = store_result AttemptState.late_result result now a;
            r = r;
            found = stored AttemptState.late_result _ attempts;
            token = token;
            is_settled = refl;
            owner = rw runs owner;
            answer = ground arith;
          })
      | inr (inr h1) ↦
          let (e, runs, attempts) = settle_run-rows o t h1 in
          record {
            a = store_result AttemptState.finished result now a;
            r = settle (state_after result r) (retry_at jitter r now) now r;
            found = stored AttemptState.finished t.attempts attempts;
            token = token;
            is_settled = refl;
            owner = rw runs (
                find-updated run_key a.run_id
                  (settle (state_after result r) (retry_at jitter r now) now) s.runs r (λ x. refl)
                  owner);
            answer = e;
          }
    ]

eligible :
    (o : Option RunState) (u : Store) (state : RunState) (t : Store)
    → ◌>>=◌ {B = RunState × Store} (or_fail o not_eligible) (λ x. ok (x, u)) ≡ ok (state, t)
    → (o ≡ some state) × (u ≡ t)
eligible none u state t h = ground arith
eligible (some x) u state t h = ground arith

-- The rows of a done attempt and of its run, in a store that may have changed since.
Settled-later :
    (attempt_id lease_token : ℕ) (o : Option RunState) (t u : Store) (r : Run)
    → Settled attempt_id lease_token o t
    → find attempt_key attempt_id u.attempts ≡ find attempt_key attempt_id t.attempts
    → ((a : Attempt)
        → find attempt_key attempt_id t.attempts ≡ some a
        → find run_key a.run_id u.runs ≡ some r)
    → Settled attempt_id lease_token (some r.state) u
Settled-later attempt_id lease_token o t u r d same owner = record {
  a = d.a;
  r = r;
  found = same ∙ d.found;
  token = d.token;
  is_settled = d.is_settled;
  owner = owner d.a d.found;
  answer = refl;
}

finish_attempt-Settled :
    (jitter : ℕ → ℕ) (attempt_id lease_token : ℕ) (result : ExecutionResult) (now : ℕ) (s t : Store)
    (state : RunState)
    → finish_attempt jitter attempt_id lease_token result now s ≡ ok (state, t)
    → Settled attempt_id lease_token (some state) t
unfolding finish_attempt finish_attempt_inner
finish_attempt-Settled jitter attempt_id lease_token result now s t state h =
    let p = λ (a : Attempt). a.lease_token == lease_token in
    let ((o, u), e, h0) =
      >>=-eq-ok (finish_attempt_inner jitter attempt_id lease_token result false now s) _ h in
    let (a, e1, h1) =
      >>=-eq-ok (or_fail (select_attempt attempt_id p s.attempts) invalid_lease) _ e in
    let (found, token, key) =
      selected attempt_id p s.attempts a (or_fail-ok _ invalid_lease a e1) in
    let (r, owner, h2) = >>=-eq-ok (or_fail (find run_key a.run_id s.runs) invalid_lease) _ h1 in
    let (answer, same) = eligible o u state t h0 in
    subst₂ (Settled attempt_id lease_token) answer same (
      finish_row-Settled jitter a r result now s attempt_id lease_token
        (subst (λ j. find attempt_key j s.attempts ≡ some a) key found) key token
        (or_fail-ok _ invalid_lease r owner) o u h2)

-- When `finish_attempt` has answered a result and the agent sends a result for that attempt once more,
-- with any content, it is answered the same way on the store that the answer left. On any other store
-- that has the attempt's row as it was left, it is answered with the state that the run has there. In
-- both cases the store stays as it is.
pub finish_attempt_again :
    (jitter jitter' : ℕ → ℕ) (attempt_id lease_token : ℕ) (result result' : ExecutionResult)
    (now now' : ℕ) (s t u : Store) (state : RunState) (r : Run)
    → finish_attempt jitter attempt_id lease_token result now s ≡ ok (state, t)
    → find attempt_key attempt_id u.attempts ≡ find attempt_key attempt_id t.attempts
    → ((a : Attempt)
        → find attempt_key attempt_id t.attempts ≡ some a
        → find run_key a.run_id u.runs ≡ some r)
    → (finish_attempt jitter' attempt_id lease_token result' now' t ≡ ok (state, t))
      × (finish_attempt jitter' attempt_id lease_token result' now' u ≡ ok (r.state, u))
finish_attempt_again jitter jitter' attempt_id lease_token result result' now now' s t u state r h
      same owner =
    let d = finish_attempt-Settled jitter attempt_id lease_token result now s t state h in
    (
      Settled-again jitter' attempt_id lease_token result' now' state t d,
      Settled-again jitter' attempt_id lease_token result' now' r.state u
          (Settled-later attempt_id lease_token (some state) t u r d same owner),
    )
