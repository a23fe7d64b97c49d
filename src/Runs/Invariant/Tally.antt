-- ===== src/Runs/Invariant/Tally.antt =====
-- The attempts of a run, counted, and how they fit its row.
use task_scheduler.Prelude.{
  ℕ, ◌+◌, ◌≤◌, ◌≡◌, sym, Bool, true, false, ◌&&◌, not, Option, none, some, List, [], ◌∷◌, ◌==◌,
  one_if, find, total, arith,
}
use mathlib.Core.Path.{subst₂}
use task_scheduler.Domain.{RunState}
use task_scheduler.Runs.Tables.{
  Attempt, AttemptState, Run, run_key, attempt_key, is_some, is_queued, is_offered,
}

-- An agent may still be running the attempt, or may yet start it.
abbrev pub is_live : AttemptState → Bool
is_live AttemptState.offered = true
is_live AttemptState.accepted = true
is_live AttemptState.expiring = true
is_live _ = false

-- A live offer that no agent has accepted.
abbrev pub is_pending : Attempt → Bool
is_pending a = is_live a.state && not (is_some a.accepted_at)

-- An offer that carries a time of acceptance.
abbrev pub is_stray : Attempt → Bool
is_stray a = is_offered a.state && is_some a.accepted_at

-- What one attempt adds to the counts of run `id`.
abbrev pub of_run : ℕ → Attempt → ℕ
of_run id a = one_if (a.run_id == id)

abbrev pub live_of : ℕ → Attempt → ℕ
live_of id a = one_if (a.run_id == id && is_live a.state)

abbrev pub accepted_of : ℕ → Attempt → ℕ
accepted_of id a = one_if (a.run_id == id && is_some a.accepted_at)

abbrev pub pending_of : ℕ → Attempt → ℕ
pending_of id a = one_if (a.run_id == id && is_pending a)

abbrev pub stray_of : ℕ → Attempt → ℕ
stray_of id a = one_if (a.run_id == id && is_stray a)

pub record Tally : Type 0 where
  pub rows : ℕ
  pub live : ℕ
  pub accepted : ℕ
  pub pending : ℕ
  pub stray : ℕ

abbrev pub tally : ℕ → List Attempt → Tally
tally id xs = record {
  rows = total (of_run id) xs;
  live = total (live_of id) xs;
  accepted = total (accepted_of id) xs;
  pending = total (pending_of id) xs;
  stray = total (stray_of id) xs;
}

-- How many attempts of a run in a state may be live.
abbrev pub LiveFits : RunState → ℕ → Type 0
LiveFits RunState.queued n = n ≡ 0
LiveFits RunState.running n = n ≡ 1
LiveFits RunState.succeeded n = n ≡ 0
LiveFits RunState.failed n = n ≡ 0
LiveFits RunState.cancelled n = n ≤ 1

-- The count of accepted attempts since the last manual retry is exact, and with what is pending, or
-- will be offered, it stays within the policy.
pub record RunFits (r : Run) (t : Tally) : Type 0 where
  pub lives : LiveFits r.state t.live
  pub counted : r.attempt_count + r.attempt_offset ≡ t.accepted
  pub budget : r.attempt_count + t.pending + one_if (is_queued r.state) ≤ r.max_attempts
  pub no_stray : t.stray ≡ 0
  pub some_attempt : 1 ≤ r.max_attempts

-- A run that does not exist has no attempts.
abbrev pub Fits : Option Run → Tally → Type 0
Fits none t = t.rows ≡ 0
Fits (some r) t = RunFits r t

abbrev pub Inv : List Run → List Attempt → Type 0
Inv runs attempts = (id : ℕ) → Fits (find run_key id runs) (tally id attempts)

-- Sums over the table.
pub total-find :
    (w : Attempt → ℕ) (k : ℕ) (xs : List Attempt) (a : Attempt)
    → find attempt_key k xs ≡ some a
    → w a ≤ total w xs
unfolding find total
total-find w k [] a h = cc
total-find w k (x ∷ xs) a h = ground (arith, total-find w k xs a)

pub pending-le-live :
    (id : ℕ) (xs : List Attempt) → total (pending_of id) xs ≤ total (live_of id) xs
unfolding total
pending-le-live id [] = omega arith
pending-le-live id (x ∷ xs) = ground (arith, pending-le-live id xs)

pub live-le-rows : (id : ℕ) (xs : List Attempt) → total (live_of id) xs ≤ total (of_run id) xs
unfolding total
live-le-rows id [] = omega arith
live-le-rows id (x ∷ xs) = ground (arith, live-le-rows id xs)

pub accepted-le-rows :
    (id : ℕ) (xs : List Attempt) → total (accepted_of id) xs ≤ total (of_run id) xs
unfolding total
accepted-le-rows id [] = omega arith
accepted-le-rows id (x ∷ xs) = ground (arith, accepted-le-rows id xs)

pub stray-le-live : (id : ℕ) (xs : List Attempt) → total (stray_of id) xs ≤ total (live_of id) xs
unfolding total
stray-le-live id [] = omega arith
stray-le-live id (x ∷ xs) = ground (arith, stray-le-live id xs)

pub Inv-same :
    {runs runs' : List Run} {xs xs' : List Attempt}
    → runs ≡ runs'
    → xs ≡ xs'
    → Inv runs' xs'
    → Inv runs xs
Inv-same e f inv = subst₂ Inv (sym e) (sym f) inv
