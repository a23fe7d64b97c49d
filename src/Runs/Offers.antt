-- ===== src/Runs/Offers.antt =====
-- The transactions that open an attempt: `create_attempt`, `release_offer`, `reject_offer` and
-- `accept_attempt` of crates/scheduler-store/src/lib.rs.
use task_scheduler.Prelude.{
  arith, find-key, sym, subst, ℕ, ◌+◌, ◌-◌, max, String, ◌≡◌, Bool, true, ◌&&◌, Option, none, some,
  List, [], ◌∷◌, ◌==◌, one_if, if◌then◌else◌, find, update, total, Result, ok, ◌>>=◌, or_fail,
}
use task_scheduler.Domain.{RunState, ExecutionResult}
use task_scheduler.Runs.Tables.{
  Attempt, AttemptState, Run, Store, StoreError, invalid_offer, invalid_lease, attempt_offered,
  attempt_rejected, attempt_accepted, run_key, attempt_key, after_seconds, u32, append_audit,
  is_offered, is_leased, is_queued, is_running, is_some, insert_attempt,
}
use task_scheduler.Runs.Batches.{sync_batch_run_state}

-- COALESCE(MAX(attempt_number),0) FROM attempts WHERE run_id=?
unfoldable pub max_attempt_number : ℕ → List Attempt → ℕ
max_attempt_number run_id [] = 0
max_attempt_number run_id (a ∷ xs) =
    max (if a.run_id == run_id then a.attempt_number else 0) (max_attempt_number run_id xs)

-- COUNT(*) FROM attempts WHERE run_id=? AND accepted_at IS NOT NULL
unfoldable pub count_accepted : ℕ → List Attempt → ℕ
count_accepted run_id = total λ a. one_if (a.run_id == run_id && is_some a.accepted_at)

-- UPDATE runs SET state=?,updated_at=? WHERE id=? AND state='running'
abbrev pub requeue_running : ℕ → Run → Run
requeue_running now r =
    if is_running r.state then record r { state = RunState.queued; updated_at = now } else r

abbrev pub start_queued : ℕ → Run → Run
start_queued now r =
    if is_queued r.state then record r { state = RunState.running; updated_at = now } else r

-- The row that `create_attempt` inserts.
abbrev pub new_offer : ℕ → ℕ → ℕ → String → ℕ → ℕ → ℕ → Attempt
new_offer id run_id number agent_id token expires now = record {
  id = id;
  run_id = run_id;
  agent_id = agent_id;
  attempt_number = number;
  lease_token = token;
  state = AttemptState.offered;
  lease_expires_at = expires;
  accepted_at = none;
  started_at = none;
  finished_at = none;
  outcome = none;
  diagnostic = none;
  output = none;
  exit_code = none;
  signal = none;
  duration_ms = none;
  created_at = now;
  updated_at = now;
}

-- The part of the transaction after the checks, on the run's row.
unfoldable pub offer_run :
    ℕ → ℕ → ℕ → String → ℕ → ℕ → Store → Result StoreError (Option Attempt × Store)
unfolding max_attempt_number
offer_run id token run_id agent_id lease_seconds now s = do
  let number = u32 (u32 (max_attempt_number run_id s.attempts) + 1)
  let a = new_offer id run_id number agent_id token (after_seconds now lease_seconds) now
  attempts ← insert_attempt a s.attempts
  let s1 = record s { attempts = attempts; runs = update run_key run_id (start_queued now) s.runs }
  s2 ← sync_batch_run_state run_id RunState.running now s1
  ok (some a, append_audit (attempt_offered run_id id) s2)

-- `id` and `token` are the two fresh UUIDs.
unfoldable pub create_attempt :
    ℕ → ℕ → ℕ → String → ℕ → ℕ → Store → Result StoreError (Option Attempt × Store)
create_attempt id token run_id agent_id lease_seconds now s = elim (find run_key run_id s.runs) [
  | none ↦ ok (none, s)
  | some r ↦
      if is_queued r.state
      then offer_run id token run_id agent_id lease_seconds now s
      else ok (none, s)
]

-- SELECT … FROM attempts WHERE id=? AND …
abbrev pub select_attempt : ℕ → (Attempt → Bool) → List Attempt → Option Attempt
select_attempt id p xs = elim (find attempt_key id xs) [
  | none ↦ none
  | some a ↦ if p a then some a else none
]

abbrev pub withdraw : ℕ → Attempt → Attempt
withdraw now a = record a { state = AttemptState.offer_failed; updated_at = now }

unfoldable pub release_row : Option Attempt → ℕ → Store → Result StoreError Store
release_row none now s = ok s
release_row (some a) now s = sync_batch_run_state a.run_id RunState.queued now (record s {
  attempts = update attempt_key a.id (withdraw now) s.attempts;
  runs = update run_key a.run_id (requeue_running now) s.runs;
})

unfoldable pub release_offer : ℕ → ℕ → Store → Result StoreError Store
release_offer attempt_id now s =
    release_row (select_attempt attempt_id (λ a. is_offered a.state) s.attempts) now s

abbrev pub record_rejection : ExecutionResult → ℕ → Attempt → Attempt
record_rejection result now a =
    if is_offered a.state
    then record a {
      state = AttemptState.finished;
      outcome = some result.outcome;
      diagnostic = result.diagnostic;
      output = some result.output;
      duration_ms = some 0;
      started_at = some now;
      finished_at = some now;
      updated_at = now;
    }
    else a

-- UPDATE runs SET state='queued',not_before=?,updated_at=? WHERE id=? AND state='running'
abbrev pub requeue_now : ℕ → Run → Run
requeue_now now r =
    if is_running r.state
    then record r { state = RunState.queued; not_before = now; updated_at = now }
    else r

unfoldable pub reject_offer : ℕ → ℕ → ExecutionResult → ℕ → Store → Result StoreError Store
reject_offer attempt_id lease_token result now s = do
  a ←
      or_fail
        (select_attempt attempt_id (λ a. a.lease_token == lease_token && is_offered a.state)
          s.attempts)
        invalid_offer
  let s1 = record s {
    attempts = update attempt_key attempt_id (record_rejection result now) s.attempts;
    runs = update run_key a.run_id (requeue_now now) s.runs;
  }
  s2 ← sync_batch_run_state a.run_id RunState.queued now s1
  ok (append_audit (attempt_rejected a.run_id attempt_id) s2)

abbrev accept_time : Option ℕ → ℕ → ℕ
accept_time none now = now
accept_time (some t) now = t

abbrev pub take_lease : ℕ → ℕ → Attempt → Attempt
take_lease lease_seconds now a = record a {
  state = AttemptState.accepted;
  accepted_at = some (accept_time a.accepted_at now);
  lease_expires_at = after_seconds now lease_seconds;
  updated_at = now;
}

-- attempt_count=MAX(0,accepted-attempt_offset): `-` stops at 0 too
abbrev pub recount : ℕ → ℕ → Run → Run
recount accepted now r = record r { attempt_count = accepted - r.attempt_offset; updated_at = now }

unfoldable pub accept_attempt : ℕ → ℕ → ℕ → ℕ → Store → Result StoreError Store
unfolding count_accepted
accept_attempt attempt_id lease_token lease_seconds now s = do
  a ←
      or_fail
        (select_attempt attempt_id (λ a. a.lease_token == lease_token && is_leased a.state)
          s.attempts)
        invalid_lease
  let attempts = update attempt_key attempt_id (take_lease lease_seconds now) s.attempts
  let runs = update run_key a.run_id (recount (count_accepted a.run_id attempts) now) s.runs
  ok (
      append_audit (attempt_accepted a.run_id attempt_id)
        (record s { attempts = attempts; runs = runs }))

pub select-found :
    (id : ℕ) (p : Attempt → Bool) (xs : List Attempt) (a : Attempt)
    → select_attempt id p xs ≡ some a
    → (find attempt_key id xs ≡ some a) × (p a ≡ true)
select-found id p xs a h = ground arith

-- A selected row is the row with its key, and it passes the test.
pub selected :
    (id : ℕ) (p : Attempt → Bool) (xs : List Attempt) (a : Attempt)
    → select_attempt id p xs ≡ some a
    → (find attempt_key a.id xs ≡ some a) × (p a ≡ true) × (a.id ≡ id)
selected id p xs a h =
    let (e, t) = select-found id p xs a h in
    let key = find-key attempt_key id xs a e in
    (subst (λ j. find attempt_key j xs ≡ some a) (sym key) e, t, key)
