-- ===== src/Runs/Invariant/Leasing.antt =====
-- The transactions of Runs/Leases and the invariant.
use task_scheduler.Prelude.{
  ℕ, ◌+◌, ◌≤◌, String, ◌≡◌, refl, Option, none, some, List, [], ◌∷◌, one_if, find, update,
  update_where, total, arith, if◌then◌else◌, Bool-cases, inl, inr, leb,
}
use task_scheduler.Runs.Tables.{Attempt, Run, Store, run_key, attempt_key, is_some, after_seconds}
use task_scheduler.Runs.Offers.{select_attempt}
use task_scheduler.Runs.Leases.{
  extend, held_by, renew_loop, renew_attempts, may_resume, resume_row, reauthorize_attempt,
  unchanged_since, expire, claim_expired, claim_loop, scan_leases, grace_of, claim_expired_attempts,
}
use task_scheduler.Runs.Invariant.Tally.{
  of_run, live_of, accepted_of, pending_of, stray_of, is_stray, tally, Fits, Inv, is_live,
}

module _ (w : Attempt → ℕ) (k : ℕ) (f : Attempt → Attempt) where
  total-update_eq :
      (xs : List Attempt)
      → ((x : Attempt) → w (f x) ≡ w x)
      → total w (update attempt_key k f xs) ≡ total w xs
  unfolding total update
  total-update_eq [] h = refl
  total-update_eq (x ∷ xs) h = ground (arith, h x, total-update_eq xs h)

  total-update_le :
      (xs : List Attempt)
      → ((x : Attempt) → w (f x) ≤ w x)
      → total w (update attempt_key k f xs) ≤ total w xs
  unfolding total update
  total-update_le [] h = omega arith
  total-update_le (x ∷ xs) h = ground (arith, h x, total-update_le xs h)

-- The change leaves the attempt with its run, and alters nothing that is counted.
record IsQuiet (x y : Attempt) : Type 0 where
  same_run : y.run_id ≡ x.run_id
  live : is_live y.state ≡ is_live x.state
  accepted : is_some y.accepted_at ≡ is_some x.accepted_at
  stray : one_if (is_stray y) ≤ one_if (is_stray x)

module _ (k : ℕ) (f : Attempt → Attempt) (quiet : (x : Attempt) → IsQuiet x (f x)) where
  quiet-Inv :
      (runs : List Run) (xs : List Attempt) → Inv runs xs → Inv runs (update attempt_key k f xs)
  quiet-Inv runs xs inv id = go (find run_key id runs) (inv id)
    where
      rows : total (of_run id) (update attempt_key k f xs) ≡ total (of_run id) xs
      rows = total-update_eq (of_run id) k f xs (λ x. let q = quiet x in ground (arith, q.same_run))

      lives : total (live_of id) (update attempt_key k f xs) ≡ total (live_of id) xs
      lives =
          total-update_eq (live_of id) k f xs
            (λ x. let q = quiet x in ground (arith, q.same_run, q.live))

      accepts : total (accepted_of id) (update attempt_key k f xs) ≡ total (accepted_of id) xs
      accepts =
          total-update_eq (accepted_of id) k f xs
            (λ x. let q = quiet x in ground (arith, q.same_run, q.accepted))

      pends : total (pending_of id) (update attempt_key k f xs) ≡ total (pending_of id) xs
      pends =
          total-update_eq (pending_of id) k f xs
            (λ x. let q = quiet x in ground (arith, q.same_run, q.accepted, q.live))

      strays : total (stray_of id) (update attempt_key k f xs) ≤ total (stray_of id) xs
      strays =
          total-update_le (stray_of id) k f xs
            (λ x. let q = quiet x in ground (arith, q.same_run, q.stray))

      go : (o : Option Run) → Fits o (tally id xs) → Fits o (tally id (update attempt_key k f xs))
      go none h = rw rows h
      go (some r) h = ground (arith, lives, accepts, pends, strays)

extend-IsQuiet : (expires now : ℕ) (x : Attempt) → IsQuiet x (extend expires now x)
extend-IsQuiet expires now x = record {
  same_run = refl;
  live = refl;
  accepted = refl;
  stray = omega arith;
}

expire-IsQuiet :
    (scanned : Attempt) (now : ℕ) (x : Attempt)
    → IsQuiet x (if unchanged_since scanned x then expire now x else x)
expire-IsQuiet scanned now x = ground arith

renewed-IsQuiet :
    (agent_id : String) (expires now : ℕ) (x : Attempt)
    → IsQuiet x (if held_by agent_id x then extend expires now x else x)
renewed-IsQuiet agent_id expires now x = ground arith

renew_loop-Inv :
    (agent_id : String) (expires now : ℕ) (ids : List ℕ) (runs : List Run) (xs : List Attempt)
    → Inv runs xs
    → Inv runs (renew_loop agent_id expires now ids xs).1
unfolding renew_loop update_where
renew_loop-Inv agent_id expires now [] runs xs inv = inv
renew_loop-Inv agent_id expires now (id ∷ ids) runs xs inv =
    renew_loop-Inv agent_id expires now ids runs
      (update attempt_key id (λ x. if held_by agent_id x then extend expires now x else x) xs)
      (quiet-Inv id (λ x. if held_by agent_id x then extend expires now x else x)
        (renewed-IsQuiet agent_id expires now) runs xs inv)

pub renew_attempts-Inv :
    (agent_id : String) (ids : List ℕ) (lease_seconds running now : ℕ) (s : Store)
    → Inv s.runs s.attempts
    → Inv
        (renew_attempts agent_id ids lease_seconds running now s).1.runs
        (renew_attempts agent_id ids lease_seconds running now s).1.attempts
unfolding renew_attempts
renew_attempts-Inv agent_id ids lease_seconds running now s inv =
    renew_loop-Inv agent_id (after_seconds now lease_seconds) now ids s.runs s.attempts inv

resume_row-Inv :
    (o : Option Attempt) (lease_seconds now : ℕ) (s : Store)
    → Inv s.runs s.attempts
    → Inv (resume_row o lease_seconds now s).1.runs (resume_row o lease_seconds now s).1.attempts
unfolding resume_row
resume_row-Inv none lease_seconds now s inv = inv
resume_row-Inv (some a) lease_seconds now s inv = elim (Bool-cases (leb a.lease_expires_at now)) [
  | inl e ↦ rw e inv
  | inr e ↦ rw e (
      quiet-Inv a.id (extend (after_seconds now lease_seconds) now)
        (extend-IsQuiet (after_seconds now lease_seconds) now) s.runs s.attempts inv)
]

pub reauthorize_attempt-Inv :
    (attempt_id : ℕ) (agent_id : String) (lease_token lease_seconds now : ℕ) (s : Store)
    → Inv s.runs s.attempts
    → let t = (reauthorize_attempt attempt_id agent_id lease_token lease_seconds now s).1 in
      Inv t.runs t.attempts
unfolding reauthorize_attempt
reauthorize_attempt-Inv attempt_id agent_id lease_token lease_seconds now s inv =
    resume_row-Inv (select_attempt attempt_id (may_resume agent_id lease_token s.runs) s.attempts)
      lease_seconds now s inv

-- One round of the expiry scan, on a row scanned at any time before.
pub claim_expired-Inv :
    (scanned : Attempt) (grace now : ℕ) (runs : List Run) (xs : List Attempt)
    → Inv runs xs
    → Inv runs (claim_expired scanned grace now xs).1
unfolding claim_expired update_where
claim_expired-Inv scanned grace now runs xs inv =
    elim (Bool-cases (leb now (scanned.lease_expires_at + grace))) [
      | inl e ↦ rw e inv
      | inr e ↦ rw e (
          quiet-Inv scanned.id (λ x. if unchanged_since scanned x then expire now x else x)
            (expire-IsQuiet scanned now) runs xs inv)
    ]

claim_loop-Inv :
    (scanned : List Attempt) (grace now : ℕ) (runs : List Run) (xs : List Attempt)
    → Inv runs xs
    → Inv runs (claim_loop scanned grace now xs).1
unfolding claim_loop
claim_loop-Inv [] grace now runs xs inv = inv
claim_loop-Inv (a ∷ scanned) grace now runs xs inv =
    claim_loop-Inv scanned grace now runs (claim_expired a grace now xs).1
      (claim_expired-Inv a grace now runs xs inv)

pub claim_expired_attempts-Inv :
    (limit grace now : ℕ) (s : Store)
    → Inv s.runs s.attempts
    → let t = (claim_expired_attempts limit grace now s).1 in Inv t.runs t.attempts
unfolding claim_expired_attempts
claim_expired_attempts-Inv limit grace now s inv =
    claim_loop-Inv (scan_leases limit s.attempts) (grace_of grace) now s.runs s.attempts inv
