-- ===== src/Runs/Invariant/Reach.antt =====
-- Any sequence of the store's transactions on runs and attempts, in any order and with any arguments.
-- The rows that the expiry scan works on may be as old as one likes.
use task_scheduler.Prelude.{
  ℕ, ◌≤◌, String, ◌≡◌, refl, subst, true, all, Option, List, [], find, total, ok,
}
use task_scheduler.Domain.{RunState, ExecutionResult}
use task_scheduler.Runs.Tables.{Attempt, Run, Store}
use task_scheduler.Runs.Triggers.{NewRun, CronOccurrence, create_run, create_cron_occurrence}
use task_scheduler.Runs.Offers.{create_attempt, release_offer, reject_offer, accept_attempt}
use task_scheduler.Runs.Leases.{
  renew_attempts, reauthorize_attempt, claim_expired, claim_expired_attempts,
}
use task_scheduler.Runs.Finish.{finish_attempt, finish_expired_attempt}
use task_scheduler.Runs.Control.{cancel_run, retry_run}
use task_scheduler.Runs.Collecting.{FinalizeBatchOutcome, finalize_batch, cancel_batch}
use task_scheduler.Runs.Fencing.{reconcile_confirmed}
use task_scheduler.Runs.Invariant.Sweeping.{
  allows_attempt, finalize_batch-Inv, cancel_batch-Inv, reconcile-Inv,
}
use task_scheduler.Runs.Invariant.Tally.{Inv, Inv-same}
use task_scheduler.Runs.Invariant.Creating.{create_run-Inv, create_cron_occurrence-Inv}
use task_scheduler.Runs.Invariant.Opening.{
  create_attempt-Inv, release_offer-Inv, reject_offer-Inv, accept_attempt-Inv,
}
use task_scheduler.Runs.Invariant.Leasing.{
  renew_attempts-Inv, reauthorize_attempt-Inv, claim_expired-Inv, claim_expired_attempts-Inv,
}
use task_scheduler.Runs.Invariant.Closing.{
  Delivered, finish_attempt-Inv, finish_expired_attempt-Inv, cancel_run-Inv, retry_run-Inv,
}

-- One committed transaction. A result comes from an attempt whose offer was delivered, and each run
-- is allowed an attempt at least.
pub data Step (s t : Store) : Type 0 where
  created :
      (trigger_id : ℕ) (new : NewRun) (now : ℕ) (r : Run)
      → 1 ≤ new.max_attempts
      → create_run trigger_id new now s ≡ ok (r, t)
      → Step s t
  occurred :
      (trigger_id : ℕ) (new : NewRun) (revision : ℕ) (expression timezone : String) (now : ℕ)
      (o : CronOccurrence)
      → 1 ≤ new.max_attempts
      → create_cron_occurrence trigger_id new revision expression timezone now s ≡ ok (o, t)
      → Step s t
  offered :
      (id token run_id : ℕ) (agent_id : String) (lease_seconds now : ℕ) (o : Option Attempt)
      → create_attempt id token run_id agent_id lease_seconds now s ≡ ok (o, t)
      → Step s t
  released : (attempt_id now : ℕ) → release_offer attempt_id now s ≡ ok t → Step s t
  rejected :
      (attempt_id lease_token : ℕ) (result : ExecutionResult) (now : ℕ)
      → reject_offer attempt_id lease_token result now s ≡ ok t
      → Step s t
  accepted :
      (attempt_id lease_token lease_seconds now : ℕ)
      → accept_attempt attempt_id lease_token lease_seconds now s ≡ ok t
      → Step s t
  renewed :
      (agent_id : String) (attempt_ids : List ℕ) (lease_seconds running now : ℕ)
      → (renew_attempts agent_id attempt_ids lease_seconds running now s).1 ≡ t
      → Step s t
  reauthorized :
      (attempt_id : ℕ) (agent_id : String) (lease_token lease_seconds now : ℕ)
      → (reauthorize_attempt attempt_id agent_id lease_token lease_seconds now s).1 ≡ t
      → Step s t
  claimed_one :
      (scanned : Attempt) (grace now : ℕ)
      → record s { attempts = (claim_expired scanned grace now s.attempts).1 } ≡ t
      → Step s t
  claimed : (limit grace now : ℕ) → (claim_expired_attempts limit grace now s).1 ≡ t → Step s t
  finished :
      (jitter : ℕ → ℕ) (attempt_id lease_token : ℕ) (result : ExecutionResult) (now : ℕ)
      (state : RunState)
      → Delivered attempt_id s
      → finish_attempt jitter attempt_id lease_token result now s ≡ ok (state, t)
      → Step s t
  lost :
      (jitter : ℕ → ℕ) (attempt_id lease_token : ℕ) (result : ExecutionResult) (now : ℕ)
      (o : Option RunState)
      → Delivered attempt_id s
      → finish_expired_attempt jitter attempt_id lease_token result now s ≡ ok (o, t)
      → Step s t
  cancelled :
      (run_id now : ℕ) (o : List (String × ℕ)) → cancel_run run_id now s ≡ ok (o, t) → Step s t
  retried : (run_id now : ℕ) → retry_run run_id now s ≡ ok t → Step s t
  materialized :
      (batch_id token : ℕ) (run_ids : ℕ → ℕ) (now : ℕ) (o : FinalizeBatchOutcome)
      → all allows_attempt s.items ≡ true
      → finalize_batch batch_id token run_ids now s ≡ ok (o, t)
      → Step s t
  batch_ended :
      (batch_id now : ℕ) (o : List (String × ℕ))
      → cancel_batch batch_id now s ≡ ok (o, t)
      → Step s t
  fenced :
      (arrange : List (ℕ × ℕ) → List (ℕ × ℕ)) (run_ids : List ℕ) (now : ℕ)
      → reconcile_confirmed arrange run_ids now s ≡ t
      → Step s t

pub Step-Inv : {s t : Store} → Step s t → Inv s.runs s.attempts → Inv t.runs t.attempts
Step-Inv {s} {t} (created trigger_id new now r allowed h) inv =
    create_run-Inv trigger_id new now s r t allowed h inv
Step-Inv {s} {t} (occurred trigger_id new revision expression timezone now o allowed h) inv =
    create_cron_occurrence-Inv trigger_id new now s revision expression timezone o t allowed h inv
Step-Inv {s} {t} (offered id token run_id agent_id lease_seconds now o h) inv =
    create_attempt-Inv id token run_id agent_id lease_seconds now s o t h inv
Step-Inv {s} {t} (released attempt_id now h) inv = release_offer-Inv attempt_id now s t h inv
Step-Inv {s} {t} (rejected attempt_id lease_token result now h) inv =
    reject_offer-Inv attempt_id lease_token result now s t h inv
Step-Inv {s} {t} (accepted attempt_id lease_token lease_seconds now h) inv =
    accept_attempt-Inv attempt_id lease_token lease_seconds now s t h inv
Step-Inv {s} {t} (renewed agent_id attempt_ids lease_seconds running now e) inv =
    subst (λ u. Inv u.runs u.attempts) e
      (renew_attempts-Inv agent_id attempt_ids lease_seconds running now s inv)
Step-Inv {s} {t} (reauthorized attempt_id agent_id lease_token lease_seconds now e) inv =
    subst (λ u. Inv u.runs u.attempts) e
      (reauthorize_attempt-Inv attempt_id agent_id lease_token lease_seconds now s inv)
Step-Inv {s} {t} (claimed_one scanned grace now e) inv =
    subst (λ u. Inv u.runs u.attempts) e (claim_expired-Inv scanned grace now s.runs s.attempts inv)
Step-Inv {s} {t} (claimed limit grace now e) inv =
    subst (λ u. Inv u.runs u.attempts) e (claim_expired_attempts-Inv limit grace now s inv)
Step-Inv {s} {t} (finished jitter attempt_id lease_token result now state d h) inv =
    finish_attempt-Inv jitter attempt_id lease_token result now s state t d h inv
Step-Inv {s} {t} (lost jitter attempt_id lease_token result now o d h) inv =
    finish_expired_attempt-Inv jitter attempt_id lease_token result now s o t d h inv
Step-Inv {s} {t} (cancelled run_id now o h) inv = cancel_run-Inv run_id now s t o h inv
Step-Inv {s} {t} (retried run_id now h) inv = retry_run-Inv run_id now s t h inv
Step-Inv {s} {t} (materialized batch_id token run_ids now o allowed h) inv =
    finalize_batch-Inv batch_id token run_ids now s t o allowed h inv
Step-Inv {s} {t} (batch_ended batch_id now o h) inv = cancel_batch-Inv batch_id now s t o h inv
Step-Inv {s} {t} (fenced arrange run_ids now e) inv =
    subst (λ u. Inv u.runs u.attempts) e (reconcile-Inv arrange run_ids now s inv)

-- A store that the transactions lead to from one without runs and attempts.
pub data Reachable : Store → Type 0 where
  start : (s : Store) → s.runs ≡ [] → s.attempts ≡ [] → Reachable s
  after : {s t : Store} → Reachable s → Step s t → Reachable t

empty-Inv : Inv [] []
unfolding find total
empty-Inv id = refl

pub Reachable-Inv : {s : Store} → Reachable s → Inv s.runs s.attempts
Reachable-Inv (start s e f) = Inv-same e f empty-Inv
Reachable-Inv (after from step) = Step-Inv step (Reachable-Inv from)
