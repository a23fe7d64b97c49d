-- ===== src/Runs/Invariant/Transitions.antt =====
-- Runs/Triggers and Runs/Offers along the diagram of Runs/Invariant/Rows.
use task_scheduler.Prelude.{
  ℕ, String, ◌≡◌, refl, sym, subst, ap, true, ◌&&◌, Option, none, some, List, ◌==◌, arith, inl, inr,
  ok, >>=-eq-ok, or_fail,
}
use task_scheduler.Domain.{RunState, ExecutionResult}
use task_scheduler.Runs.Tables.{
  Attempt, Run, Store, is_offered, is_leased, invalid_lease, invalid_offer,
}
use task_scheduler.Runs.Batches.{sync_batch_run_state, sync-keeps}
use task_scheduler.Runs.Offers.{
  select_attempt, count_accepted, start_queued, requeue_running, requeue_now, recount, release_row,
  release_offer, reject_offer, accept_attempt, create_attempt,
}
use task_scheduler.Runs.Triggers.{
  NewRun, CronOccurrence, insert_run, queued_run, create_run, create_cron_occurrence,
}
use task_scheduler.Runs.Invariant.Rows.{
  may_follow, may_stay, Follow, same-Follow, append-Follow, update-Follow,
}
use task_scheduler.Runs.Invariant.Creating.{insert_run-some, create_run-cases, create_cron-cases}
use task_scheduler.Runs.Invariant.Opening.{create_attempt-cases, offer_run-rows}

insert-Follow : (new : Run) (runs rs : List Run) → insert_run new runs ≡ some rs → Follow runs rs
insert-Follow new runs rs h =
    subst (Follow runs) (sym (insert_run-some new runs rs h).1) (append-Follow runs new)

module _ (trigger_id : ℕ) (new : NewRun) (now : ℕ) (s : Store) where
  pub create_run-Follow :
      (r : Run) (t : Store) → create_run trigger_id new now s ≡ ok (r, t) → Follow s.runs t.runs
  create_run-Follow r t h = elim (create_run-cases trigger_id new now s r t h) [
    | inl same ↦ same-Follow s.runs t.runs (ap (λ u. u.runs) same)
    | inr (e, _) ↦ insert-Follow (queued_run new now) s.runs t.runs e
  ]

  pub create_cron_occurrence-Follow :
      (revision : ℕ) (expression timezone : String) (o : CronOccurrence) (t : Store)
      → create_cron_occurrence trigger_id new revision expression timezone now s ≡ ok (o, t)
      → Follow s.runs t.runs
  create_cron_occurrence-Follow revision expression timezone o t h =
      elim (create_cron-cases trigger_id new now s revision expression timezone o t h) [
        | inl (e, _) ↦ same-Follow s.runs t.runs e
        | inr (e, _) ↦ insert-Follow (queued_run new now) s.runs t.runs e
      ]

start-follows : (r : Run) (now : ℕ) → may_follow r.state (start_queued now r).state ≡ true
unfolding may_follow
start-follows r now = ground arith

requeue-follows : (r : Run) (now : ℕ) → may_follow r.state (requeue_running now r).state ≡ true
unfolding may_follow
requeue-follows r now = ground arith

requeue_now-follows : (r : Run) (now : ℕ) → may_follow r.state (requeue_now now r).state ≡ true
unfolding may_follow
requeue_now-follows r now = ground arith

pub create_attempt-Follow :
    (id token run_id : ℕ) (agent_id : String) (lease_seconds now : ℕ) (s t : Store)
    (o : Option Attempt)
    → create_attempt id token run_id agent_id lease_seconds now s ≡ ok (o, t)
    → Follow s.runs t.runs
create_attempt-Follow id token run_id agent_id lease_seconds now s t o h =
    elim (create_attempt-cases id token run_id agent_id lease_seconds now s o t h) [
      | inl (same, _) ↦ same-Follow s.runs t.runs (ap (λ u. u.runs) same)
      | inr (r, e, q, h1) ↦
          update-Follow run_id (start_queued now) s.runs t.runs
            (offer_run-rows id token run_id agent_id lease_seconds now s o t h1).0
            (λ r'. ground arith) (λ r' _. start-follows r' now)
    ]

release_row-Follow :
    (o : Option Attempt) (now : ℕ) (s t : Store) → release_row o now s ≡ ok t → Follow s.runs t.runs
unfolding release_row
release_row-Follow none now s t h = same-Follow s.runs t.runs (ground arith)
release_row-Follow (some a) now s t h =
    update-Follow a.run_id (requeue_running now) s.runs t.runs
      (sync-keeps a.run_id RunState.queued now _ t h).0 (λ r. ground arith)
      (λ r _. requeue-follows r now)

pub release_offer-Follow :
    (attempt_id now : ℕ) (s t : Store)
    → release_offer attempt_id now s ≡ ok t
    → Follow s.runs t.runs
unfolding release_offer
release_offer-Follow attempt_id now s t h = release_row-Follow _ now s t h

pub reject_offer-Follow :
    (attempt_id lease_token : ℕ) (result : ExecutionResult) (now : ℕ) (s t : Store)
    → reject_offer attempt_id lease_token result now s ≡ ok t
    → Follow s.runs t.runs
unfolding reject_offer
reject_offer-Follow attempt_id lease_token result now s t h =
    let p = λ (a : Attempt). a.lease_token == lease_token && is_offered a.state in
    let (a, e, h1) =
      >>=-eq-ok (or_fail (select_attempt attempt_id p s.attempts) invalid_offer) _ h in
    let (s2, synced, h2) = >>=-eq-ok (sync_batch_run_state a.run_id RunState.queued now _) _ h1 in
    let kept = sync-keeps a.run_id RunState.queued now _ s2 synced in
    update-Follow a.run_id (requeue_now now) s.runs t.runs (ground arith) (λ r. ground arith)
      (λ r _. requeue_now-follows r now)

pub accept_attempt-Follow :
    (attempt_id lease_token lease_seconds now : ℕ) (s t : Store)
    → accept_attempt attempt_id lease_token lease_seconds now s ≡ ok t
    → Follow s.runs t.runs
unfolding accept_attempt
accept_attempt-Follow attempt_id lease_token lease_seconds now s t h =
    let p = λ (a : Attempt). a.lease_token == lease_token && is_leased a.state in
    let (a, e, h1) =
      >>=-eq-ok (or_fail (select_attempt attempt_id p s.attempts) invalid_lease) _ h in
    let n = count_accepted a.run_id t.attempts in
    update-Follow a.run_id (recount n now) s.runs t.runs (ground arith) (λ r. refl)
      (λ r _. may_stay r.state)
