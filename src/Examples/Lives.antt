-- ===== src/Examples/Lives.antt =====
-- The theorems on runs and attempts, at the stores of Examples/Stores.
use task_scheduler.Prelude.{
  String, ◌/◌, max, ℕ, ◌+◌, ◌-◌, ◌*◌, ◌^◌, ◌≤◌, ◌<◌, min, ◌≡◌, ◌≢◌, refl, true, false, none, some,
  [], ◌∷◌, ◌++◌, find, update, update_where, matched, total, one_if, ok, err, arith,
}
use task_scheduler.Domain.{RunState}
use task_scheduler.Runs.Tables.{
  Attempt, AttemptState, Run, TriggerIdentity, Store, invalid_lease, run_key, attempt_key, seconds,
  after_seconds, insert_attempt,
}
use task_scheduler.Runs.Triggers.{create_run, insert_trigger, insert_run, queued_run, run_trigger}
use task_scheduler.Runs.Batches.{sync_batch_run_state, sync_link}
use task_scheduler.Runs.Offers.{
  create_attempt, offer_run, max_attempt_number, accept_attempt, count_accepted, start_queued,
  recount,
}
use task_scheduler.Runs.Stats.{
  update_node_processing_stats, update_daily_schedule_stats, increment_cancelled_rollup,
}
use task_scheduler.Runs.Leases.{
  extend, may_resume, renew_attempts, resume_row, reauthorize_attempt, claim_expired,
}
use task_scheduler.Runs.Finish.{
  backoff_base, store_result, settle, retry_at, settle_run, finish_row, finish_attempt_inner,
  finish_attempt,
}
use task_scheduler.Runs.Control.{cancel, cancel_run}
use task_scheduler.Runs.Backoff.{backoff_base_doubles, retry_at_bounds}
use task_scheduler.Runs.Claims.{
  claimed_store, claim_excludes, claimed_result_ignored, resumption_wins,
}
use task_scheduler.Runs.Redelivery.{finish_attempt_again}
use task_scheduler.Runs.Once.{create_run_once}
use task_scheduler.Runs.Invariant.Tally.{live_of}
use task_scheduler.Runs.Invariant.Rows.{may_follow}
use task_scheduler.Runs.Invariant.Reach.{
  Reachable, start, after, created, offered, accepted, cancelled,
}
use task_scheduler.Runs.Invariant.Safety.{
  one_live_attempt, accepted_within_policy, attempt-run, offer_alone, run_state_follows, here,
  is_final, final_state_stays,
}
use task_scheduler.Examples.Stores.{
  empty, request, repeated, run_one, created_store, offer, offered_store, lease, accepted_store,
  success,
}

abbrev counted_run : Run
counted_run = recount 1 200 (start_queued 100 run_one)

create_test : create_run 9 request 100 empty ≡ ok (run_one, created_store)
unfolding create_run insert_trigger insert_run find
create_test = refl

offer_test : create_attempt 20 77 1 "node" 30 100 created_store ≡ ok (some offer, offered_store)
unfolding create_attempt offer_run after_seconds max_attempt_number insert_attempt find update
    sync_batch_run_state sync_link
offer_test = refl

accept_test : accept_attempt 20 77 30 200 offered_store ≡ ok accepted_store
unfolding accept_attempt after_seconds find update count_accepted total
accept_test = refl

at_created : Reachable created_store
at_created = after (start empty refl refl) (created 9 request 100 run_one (omega arith) create_test)

at_offered : Reachable offered_store
at_offered = after at_created (offered 20 77 1 "node" 30 100 (some offer) offer_test)

at_accepted : Reachable accepted_store
at_accepted = after at_offered (accepted 20 77 30 200 accept_test)

created_run : find run_key 1 created_store.runs ≡ some run_one
unfolding find
created_run = refl

accepted_run : find run_key 1 accepted_store.runs ≡ some (counted_run)
unfolding find
accepted_run = refl

accepted_attempt : find attempt_key 20 accepted_store.attempts ≡ some lease
unfolding find
accepted_attempt = refl

fresh_run : insert_run (queued_run request 100) empty.runs ≢ none
unfolding insert_run find
fresh_run e = cc

one_live_attempt_example : total (live_of 1) accepted_store.attempts ≡ 1
one_live_attempt_example = one_live_attempt accepted_store 1 (counted_run) at_accepted accepted_run

accepted_within_policy_example :
    (1 ≡ count_accepted 1 accepted_store.attempts - 0) × (1 + one_if false ≤ 2)
accepted_within_policy_example =
    accepted_within_policy accepted_store 1 (counted_run) at_accepted accepted_run

attempt-run_example : find run_key 1 accepted_store.runs ≢ none
attempt-run_example = attempt-run accepted_store 20 lease at_accepted accepted_attempt

offer_alone_example :
    (total (live_of 1) created_store.attempts ≡ 0) × (total (live_of 1) offered_store.attempts ≡ 1)
offer_alone_example =
    offer_alone 20 77 1 "node" 30 100 created_store offered_store offer at_created offer_test

run_state_follows_example :
    (r' : Run) × (find run_key 1 offered_store.runs ≡ some r')
    × (may_follow RunState.queued r'.state ≡ true)
run_state_follows_example =
    run_state_follows created_store offered_store 1 run_one at_created
      (offered 20 77 1 "node" 30 100 (some offer) offer_test) created_run

abbrev cancelled_store : Store
cancelled_store = elim (cancel_run 1 300 accepted_store) [ ok x ↦ x.1 | err e ↦ empty ]

abbrev cancelled_run : Run
cancelled_run = cancel 300 (counted_run)

cancel_test : cancel_run 1 300 accepted_store ≡ ok (("node", 20) ∷ [], cancelled_store)
unfolding cancel_run find update sync_batch_run_state sync_link increment_cancelled_rollup
cancel_test = refl

cancel_found : find run_key 1 cancelled_store.runs ≡ some cancelled_run
unfolding cancel_run find update sync_batch_run_state sync_link increment_cancelled_rollup
cancel_found = refl

cancel_final : is_final cancelled_run.state ≡ true
cancel_final = refl

at_cancelled : Reachable cancelled_store
at_cancelled = after at_accepted (cancelled 1 300 (("node", 20) ∷ []) cancel_test)

final_state_stays_example :
    (r' : Run) × (find run_key 1 cancelled_store.runs ≡ some r') × (r'.state ≡ cancelled_run.state)
final_state_stays_example =
    final_state_stays cancelled_store cancelled_store 1 cancelled_run at_cancelled here cancel_found
      cancel_final

claim_test : (claim_expired lease 0 40000 accepted_store.attempts).0 ≡ true
unfolding claim_expired matched find
claim_test = refl

claim_excludes_example :
    let t = claimed_store lease 0 40000 accepted_store in
    (30200 + 0 < 40000)
    × ((token lease_seconds at : ℕ)
        → accept_attempt 20 token lease_seconds at t ≡ err invalid_lease)
    × ((agent_id : String) (lease_seconds running at : ℕ)
        → (renew_attempts agent_id (20 ∷ []) lease_seconds running at t).0 ≡ [])
    × ((agent_id : String) (token lease_seconds at : ℕ)
        → reauthorize_attempt 20 agent_id token lease_seconds at t ≡ (false, t))
claim_excludes_example = claim_excludes lease 0 40000 accepted_store claim_test

abbrev no_jitter : ℕ → ℕ
no_jitter bound = 0

no_jitter-within : (bound : ℕ) → no_jitter bound ≤ bound
no_jitter-within bound = omega arith

ignored_test :
    finish_attempt no_jitter 20 77 success 41000 (claimed_store lease 0 40000 accepted_store)
    ≡ ok (RunState.running, claimed_store lease 0 40000 accepted_store)
unfolding finish_attempt finish_attempt_inner finish_row claim_expired update_where update find
ignored_test = refl

claimed_result_ignored_example :
    claimed_store lease 0 40000 accepted_store ≡ claimed_store lease 0 40000 accepted_store
claimed_result_ignored_example =
    claimed_result_ignored lease 0 40000 accepted_store no_jitter 77 success 41000 RunState.running
      (claimed_store lease 0 40000 accepted_store) claim_test ignored_test

abbrev finished_store : Store
finished_store = elim (finish_attempt no_jitter 20 77 success 800 accepted_store) [
  | ok x ↦ x.1
  | err e ↦ empty
]

finish_test :
    finish_attempt no_jitter 20 77 success 800 accepted_store
    ≡ ok (RunState.succeeded, finished_store)
unfolding finish_attempt finish_attempt_inner finish_row settle_run update find
    update_node_processing_stats update_daily_schedule_stats sync_batch_run_state sync_link
finish_test = refl

-- Later another run of the schedule has been added.
abbrev later_store : Store
later_store = record finished_store { runs = record run_one { id = 8 } ∷ finished_store.runs }

abbrev finished_run : Run
finished_run = settle RunState.succeeded (retry_at no_jitter counted_run 800) 800 counted_run

finished_found : find run_key 1 later_store.runs ≡ some finished_run
unfolding finish_attempt finish_attempt_inner finish_row settle_run update find
    update_node_processing_stats update_daily_schedule_stats sync_batch_run_state sync_link
finished_found = refl

finished_attempt :
    find attempt_key 20 finished_store.attempts
    ≡ some (store_result AttemptState.finished success 800 lease)
unfolding finish_attempt finish_attempt_inner finish_row settle_run update find
    update_node_processing_stats update_daily_schedule_stats sync_batch_run_state sync_link
finished_attempt = refl

finish_attempt_again_example :
    (finish_attempt no_jitter 20 77 success 9000 finished_store
      ≡ ok (RunState.succeeded, finished_store))
    × (finish_attempt no_jitter 20 77 success 9000 later_store
        ≡ ok (RunState.succeeded, later_store))
finish_attempt_again_example =
    finish_attempt_again no_jitter no_jitter 20 77 success success 800 9000 accepted_store
      finished_store later_store RunState.succeeded finished_run finish_test refl
      (λ a e. owner_of a (cc (finished_attempt, e)))
  where
    owner_of :
        (a : Attempt)
        → a ≡ store_result AttemptState.finished success 800 lease
        → find run_key a.run_id later_store.runs ≡ some finished_run
    owner_of a e = rw e finished_found

abbrev resumed_store : Store
resumed_store = record accepted_store { attempts = extend 31000 1000 lease ∷ [] }

resume_test : reauthorize_attempt 20 "node" 77 30 1000 accepted_store ≡ (true, resumed_store)
unfolding reauthorize_attempt resume_row after_seconds update find
resume_test = refl

resumption_wins_example :
    ((a : Attempt) × (find attempt_key 20 accepted_store.attempts ≡ some a)
      × (may_resume "node" 77 accepted_store.runs a ≡ true)
      × (1000 < a.lease_expires_at)
      × (find attempt_key 20 resumed_store.attempts ≡ some (extend 31000 1000 a)))
    × (claim_expired lease 0 40000 resumed_store.attempts ≡ (false, resumed_store.attempts))
resumption_wins_example =
    resumption_wins lease "node" 77 30 1000 0 40000 accepted_store resumed_store resume_test
      (omega arith) (λ e. absurd (omega (arith, e)))

-- The trigger is sent again after the run was offered and another schedule was triggered.
abbrev other_trigger : TriggerIdentity
other_trigger = record (run_trigger 11 request 500) { schedule_id = 12; target_id = 8 }

abbrev triggered_store : Store
triggered_store = record offered_store { triggers = created_store.triggers ++ other_trigger ∷ [] }

offered_run : find run_key 1 triggered_store.runs ≡ some (start_queued 100 run_one)
unfolding find
offered_run = refl

create_run_once_example :
    create_run 10 repeated 950 triggered_store ≡ ok (start_queued 100 run_one, triggered_store)
create_run_once_example =
    create_run_once 9 10 request repeated 100 950 empty created_store triggered_store run_one
      (start_queued 100 run_one) "nightly" (other_trigger ∷ []) (λ ts h. fresh_run) refl refl refl
      create_test refl offered_run

backoff_base_doubles_example :
    (backoff_base 5 300 4 ≡ 5 * 2 ^ 3) × (backoff_base 5 300 2 ≤ backoff_base 5 300 4)
backoff_base_doubles_example =
    backoff_base_doubles 5 300 2 3 (omega arith) (omega arith) (omega arith) (omega arith)

retry_at_bounds_example :
    (1000 + seconds (min 5 60) ≤ retry_at no_jitter run_one 1000)
    × (retry_at no_jitter run_one 1000 ≤ 1000 + seconds (60 + max (60 / 5) 1))
retry_at_bounds_example =
    retry_at_bounds no_jitter run_one 1000 no_jitter-within (omega arith) (omega arith)
