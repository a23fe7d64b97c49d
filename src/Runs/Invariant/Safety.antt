-- ===== src/Runs/Invariant/Safety.antt =====
-- What the invariant says of every store that the transactions reach.
use task_scheduler.Prelude.{
  ℕ, ◌+◌, ◌-◌, ◌≤◌, String, ◌≡◌, ◌≢◌, refl, sym, ap, ◌∙◌, subst, Bool, true, false, Option, none,
  some, List, find, total, ok, arith, one_if, total-append, ==_refl, inl, inr,
}
use task_scheduler.Domain.{RunState}
use task_scheduler.Runs.Tables.{Attempt, Run, Store, run_key, attempt_key, is_queued}
use task_scheduler.Runs.Offers.{create_attempt, count_accepted}
use task_scheduler.Runs.Invariant.Tally.{
  live_of, LiveFits, tally, RunFits, Fits, Inv, total-find, of_run,
}
use task_scheduler.Runs.Invariant.Reach.{Reachable, Step, after, offered, Reachable-Inv}
use task_scheduler.Runs.Leases.{
  renew_attempts, reauthorize_attempt, resume_row, claim_expired_attempts,
}
use task_scheduler.Runs.Invariant.Reach.{
  created, occurred, released, rejected, accepted, renewed, reauthorized, claimed_one, claimed,
  finished, lost, cancelled, retried, materialized, batch_ended, fenced,
}
use task_scheduler.Runs.Invariant.Rows.{may_follow, Follow, same-Follow}
use task_scheduler.Runs.Invariant.Transitions.{
  create_run-Follow, create_cron_occurrence-Follow, create_attempt-Follow, release_offer-Follow,
  reject_offer-Follow, accept_attempt-Follow,
}
use task_scheduler.Runs.Invariant.Endings.{
  finish_attempt-Follow, finish_expired_attempt-Follow, cancel_run-Follow, retry_run-Follow,
}
use task_scheduler.Runs.Invariant.Sweeping.{
  finalize_batch-Follow, cancel_batch-Follow, reconcile-Follow,
}
use task_scheduler.Runs.Invariant.Opening.{create_attempt-cases, offer_of, offer_run-rows}

module _ (s : Store) (from : Reachable s) where
  run-RunFits :
      (id : ℕ) (r : Run) → find run_key id s.runs ≡ some r → RunFits r (tally id s.attempts)
  run-RunFits id r e = subst (λ o. Fits o (tally id s.attempts)) e (Reachable-Inv from id)

-- In every store that the transactions reach, a running run has exactly one live attempt (offered,
-- accepted or expiring), a queued, succeeded or failed run has none, and a cancelled run has at most
-- one.
pub one_live_attempt :
    (s : Store) (id : ℕ) (r : Run)
    → Reachable s
    → find run_key id s.runs ≡ some r
    → LiveFits r.state (total (live_of id) s.attempts)
one_live_attempt s id r from e = (run-RunFits s from id r e).lives

-- In every store that the transactions reach, the count of a run is the number of its attempts that
-- were ever accepted less its offset, it is at most `max_attempts`, and it is less than that while
-- the run is queued.
pub accepted_within_policy :
    (s : Store) (id : ℕ) (r : Run)
    → Reachable s
    → find run_key id s.runs ≡ some r
    → (r.attempt_count ≡ count_accepted id s.attempts - r.attempt_offset)
      × (r.attempt_count + one_if (is_queued r.state) ≤ r.max_attempts)
unfolding count_accepted
accepted_within_policy s id r from e = let fits = run-RunFits s from id r e in ground arith

-- In every store that the transactions reach, the run of each attempt exists.
pub attempt-run :
    (s : Store) (k : ℕ) (a : Attempt)
    → Reachable s
    → find attempt_key k s.attempts ≡ some a
    → find run_key a.run_id s.runs ≢ none
attempt-run s k a from e n = ground (
  arith,
  total-find (of_run a.run_id) k s.attempts a e,
  subst (λ o. Fits o (tally a.run_id s.attempts)) n (Reachable-Inv from a.run_id),
  ==_refl a.run_id,
)

-- In a store that the transactions reach, `create_attempt` returns an offer only for a run that has
-- no live attempt, and then the offer is the one live attempt of that run.
pub offer_alone :
    (id token run_id : ℕ) (agent_id : String) (lease_seconds now : ℕ) (s t : Store) (a : Attempt)
    → Reachable s
    → create_attempt id token run_id agent_id lease_seconds now s ≡ ok (some a, t)
    → (total (live_of run_id) s.attempts ≡ 0) × (total (live_of run_id) t.attempts ≡ 1)
offer_alone id token run_id agent_id lease_seconds now s t a from h =
    elim (create_attempt-cases id token run_id agent_id lease_seconds now s (some a) t h) [
      | inl (_, e) ↦ absurd (ground (arith, e))
      | inr (r, e, q, h1) ↦
          let fits = (run-RunFits s from run_id r e).lives in
          let new = offer_of id token run_id agent_id lease_seconds now s in
          let (_, rows) =
            offer_run-rows id token run_id agent_id lease_seconds now s (some a) t h1 in
          let before : total (live_of run_id) s.attempts ≡ 0 = ground arith in
          (
            before,
            rw rows (ground (arith, total-append (live_of run_id) s.attempts new, ==_refl run_id)),
          )
    ]

resume_row-runs :
    (o : Option Attempt) (lease_seconds now : ℕ) (s : Store)
    → (resume_row o lease_seconds now s).1.runs ≡ s.runs
unfolding resume_row
resume_row-runs o lease_seconds now s = ground arith

reauthorize_attempt-runs :
    (attempt_id : ℕ) (agent_id : String) (lease_token lease_seconds now : ℕ) (s : Store)
    → (reauthorize_attempt attempt_id agent_id lease_token lease_seconds now s).1.runs ≡ s.runs
unfolding reauthorize_attempt
reauthorize_attempt-runs attempt_id agent_id lease_token lease_seconds now s =
    resume_row-runs _ lease_seconds now s

renew_attempts-runs :
    (agent_id : String) (attempt_ids : List ℕ) (lease_seconds running now : ℕ) (s : Store)
    → (renew_attempts agent_id attempt_ids lease_seconds running now s).1.runs ≡ s.runs
unfolding renew_attempts
renew_attempts-runs agent_id attempt_ids lease_seconds running now s = refl

claim_expired_attempts-runs :
    (limit grace now : ℕ) (s : Store) → (claim_expired_attempts limit grace now s).1.runs ≡ s.runs
unfolding claim_expired_attempts
claim_expired_attempts-runs limit grace now s = refl

Step-Follow : {s t : Store} → Step s t → Inv s.runs s.attempts → Follow s.runs t.runs
Step-Follow {s} {t} (created trigger_id new now r allowed h) inv =
    create_run-Follow trigger_id new now s r t h
Step-Follow {s} {t} (occurred trigger_id new revision expression timezone now o allowed h) inv =
    create_cron_occurrence-Follow trigger_id new now s revision expression timezone o t h
Step-Follow {s} {t} (offered id token run_id agent_id lease_seconds now o h) inv =
    create_attempt-Follow id token run_id agent_id lease_seconds now s t o h
Step-Follow {s} {t} (released attempt_id now h) inv = release_offer-Follow attempt_id now s t h
Step-Follow {s} {t} (rejected attempt_id lease_token result now h) inv =
    reject_offer-Follow attempt_id lease_token result now s t h
Step-Follow {s} {t} (accepted attempt_id lease_token lease_seconds now h) inv =
    accept_attempt-Follow attempt_id lease_token lease_seconds now s t h
Step-Follow {s} {t} (renewed agent_id attempt_ids lease_seconds running now e) inv =
    same-Follow s.runs t.runs (
      ap (λ u. u.runs) (sym e)
      ∙ renew_attempts-runs agent_id attempt_ids lease_seconds running now s)
Step-Follow {s} {t} (reauthorized attempt_id agent_id lease_token lease_seconds now e) inv =
    same-Follow s.runs t.runs (
      ap (λ u. u.runs) (sym e)
      ∙ reauthorize_attempt-runs attempt_id agent_id lease_token lease_seconds now s)
Step-Follow {s} {t} (claimed_one scanned grace now e) inv =
    same-Follow s.runs t.runs (ap (λ u. u.runs) (sym e))
Step-Follow {s} {t} (claimed limit grace now e) inv =
    same-Follow s.runs t.runs
      (ap (λ u. u.runs) (sym e) ∙ claim_expired_attempts-runs limit grace now s)
Step-Follow {s} {t} (finished jitter attempt_id lease_token result now state d h) inv =
    finish_attempt-Follow jitter attempt_id lease_token result now s state t d h inv
Step-Follow {s} {t} (lost jitter attempt_id lease_token result now o d h) inv =
    finish_expired_attempt-Follow jitter attempt_id lease_token result now s o t d h inv
Step-Follow {s} {t} (cancelled run_id now o h) inv = cancel_run-Follow run_id now s t o h
Step-Follow {s} {t} (retried run_id now h) inv = retry_run-Follow run_id now s t h
Step-Follow {s} {t} (materialized batch_id token run_ids now o allowed h) inv =
    finalize_batch-Follow batch_id token run_ids now s t o allowed h
Step-Follow {s} {t} (batch_ended batch_id now o h) inv = cancel_batch-Follow batch_id now s t o h
Step-Follow {s} {t} (fenced arrange run_ids now e) inv =
    subst (λ u. Follow s.runs u.runs) e (reconcile-Follow arrange run_ids now s)

-- From a store that the transactions of `Step` reach, one more of them loses no run, and a run's state
-- stays or moves from queued to running, failed or cancelled, from running to queued, succeeded, failed
-- or cancelled, or from failed to queued, and in no other way.
pub run_state_follows :
    (s t : Store) (id : ℕ) (r : Run)
    → Reachable s
    → Step s t
    → find run_key id s.runs ≡ some r
    → (r' : Run) × (find run_key id t.runs ≡ some r') × (may_follow r.state r'.state ≡ true)
run_state_follows s t id r from step e = Step-Follow step (Reachable-Inv from) id r e

-- Any sequence of transactions.
pub data Later (s : Store) : Store → Type 0 where
  here : Later s s
  and_then : {t u : Store} → Later s t → Step t u → Later s u

abbrev pub is_final : RunState → Bool
is_final RunState.succeeded = true
is_final RunState.cancelled = true
is_final _ = false

final_follows : (a b : RunState) → is_final a ≡ true → may_follow a b ≡ true → b ≡ a
unfolding may_follow
final_follows a b f m = ground arith

Later-Reachable : {s t : Store} → Reachable s → Later s t → Reachable t
Later-Reachable from here = from
Later-Reachable from (and_then later step) = after (Later-Reachable from later) step

-- A succeeded or cancelled run of a store that the transactions reach keeps its state whatever
-- transactions come later.
pub final_state_stays :
    (s t : Store) (id : ℕ) (r : Run)
    → Reachable s
    → Later s t
    → find run_key id s.runs ≡ some r
    → is_final r.state ≡ true
    → (r' : Run) × (find run_key id t.runs ≡ some r') × (r'.state ≡ r.state)
final_state_stays s t id r from here e f = (r, e, refl)
final_state_stays s t id r from (and_then {t = u} later step) e f =
    let (r1, e1, same) = final_state_stays s u id r from later e f in
    let (r2, e2, m) = run_state_follows u t id r1 (Later-Reachable from later) step e1 in
    (r2, e2, final_follows r1.state r2.state (subst (λ x. is_final x ≡ true) (sym same) f) m ∙ same)
