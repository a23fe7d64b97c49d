-- ===== src/Runs/Invariant/Creating.antt =====
-- The transactions of Runs/Triggers and the invariant.
use task_scheduler.Prelude.{
  ℕ, ◌≤◌, String, ◌≡◌, refl, sym, subst, total, Option, none, some, List, [], ◌∷◌, ◌++◌, ◌==◌, find,
  arith, Bool-cases, inl, inr, ◌⊎◌, ok, find-append, find-append_some,
}
use task_scheduler.Domain.{RunState}
use task_scheduler.Runs.Tables.{Attempt, Run, Store, run_key}
use task_scheduler.Runs.Triggers.{
  NewRun, queued_run, insert_run, create_run, existing_occurrence, cron_run, create_cron_occurrence,
  CronOccurrence,
}
use task_scheduler.Runs.Invariant.Tally.{
  LiveFits, live_of, tally, RunFits, Fits, Inv, Inv-same, pending-le-live, live-le-rows,
  accepted-le-rows, stray-le-live,
}

pub insert_run-some :
    (new : Run) (runs rs : List Run)
    → insert_run new runs ≡ some rs
    → (find run_key new.id runs ≡ none) × (rs ≡ runs ++ new ∷ [])
unfolding insert_run
insert_run-some new runs rs h = ground arith

-- A run that has just been queued.
pub record IsFresh (r : Run) : Type 0 where
  pub waits : r.state ≡ RunState.queued
  pub uncounted : r.attempt_count ≡ 0
  pub no_offset : r.attempt_offset ≡ 0
  pub allowed : 1 ≤ r.max_attempts

module _ (new : Run) (fresh_run : IsFresh new) (runs : List Run) (xs : List Attempt) where
  queued-lives : (n : ℕ) → n ≡ 0 → LiveFits new.state n
  queued-lives n e = subst (λ s. LiveFits s n) (sym fresh_run.waits) e

  queued-Fits : (id : ℕ) → Fits none (tally id xs) → RunFits new (tally id xs)
  queued-Fits id h =
      let live = live-le-rows id xs in
      let accepted = accepted-le-rows id xs in
      let pending = pending-le-live id xs in
      let stray = stray-le-live id xs in
      let waits = fresh_run.waits in
      let uncounted = fresh_run.uncounted in
      let no_offset = fresh_run.no_offset in
      let allowed = fresh_run.allowed in
      record {
        lives = queued-lives (total (live_of id) xs) (omega arith);
        counted = omega arith;
        budget = rw waits (omega arith);
        no_stray = omega arith;
        some_attempt = allowed;
      }

  append-Inv : find run_key new.id runs ≡ none → Inv runs xs → Inv (runs ++ new ∷ []) xs
  append-Inv unused inv id = go (find run_key id runs) refl (inv id)
    where
      go :
          (o : Option Run)
          → find run_key id runs ≡ o
          → Fits o (tally id xs)
          → Fits (find run_key id (runs ++ new ∷ [])) (tally id xs)
      go none e h =
          rw (find-append run_key id runs new e)
            (elim (Bool-cases (new.id == id)) [ inl q ↦ rw q (queued-Fits id h) | inr q ↦ rw q h ])
      go (some r) e h = rw (find-append_some run_key id runs new r e) h

  pub insert-Inv : (rs : List Run) → insert_run new runs ≡ some rs → Inv runs xs → Inv rs xs
  insert-Inv rs h inv =
      let (unused, e) = insert_run-some new runs rs h in rw e (append-Inv unused inv)

queued_run-IsFresh : (new : NewRun) (now : ℕ) → 1 ≤ new.max_attempts → IsFresh (queued_run new now)
queued_run-IsFresh new now allowed = record {
  waits = refl;
  uncounted = refl;
  no_offset = refl;
  allowed = allowed;
}

module _ (trigger_id : ℕ) (new : NewRun) (now : ℕ) (s : Store) where
  -- A successful `create_run` leaves the runs as they were, or adds the new one.
  pub create_run-cases :
      (r : Run) (t : Store)
      → create_run trigger_id new now s ≡ ok (r, t)
      → (t ≡ s)
        ⊎ ((insert_run (queued_run new now) s.runs ≡ some t.runs) × (t.attempts ≡ s.attempts))
  unfolding create_run
  create_run-cases r t h = ground arith

  pub create_run-Inv :
      (r : Run) (t : Store)
      → 1 ≤ new.max_attempts
      → create_run trigger_id new now s ≡ ok (r, t)
      → Inv s.runs s.attempts
      → Inv t.runs t.attempts
  create_run-Inv r t allowed h inv = elim (create_run-cases r t h) [
    | inl same ↦ rw same inv
    | inr (e, same) ↦ Inv-same refl same (
        insert-Inv (queued_run new now) (queued_run-IsFresh new now allowed) s.runs s.attempts
          t.runs e inv)
  ]

  pub create_cron-cases :
      (revision : ℕ) (expression timezone : String) (o : CronOccurrence) (t : Store)
      → create_cron_occurrence trigger_id new revision expression timezone now s ≡ ok (o, t)
      → ((t.runs ≡ s.runs) × (t.attempts ≡ s.attempts))
        ⊎ ((insert_run (queued_run new now) s.runs ≡ some t.runs) × (t.attempts ≡ s.attempts))
  unfolding create_cron_occurrence existing_occurrence cron_run
  create_cron-cases revision expression timezone o t h = ground arith

  pub create_cron_occurrence-Inv :
      (revision : ℕ) (expression timezone : String) (o : CronOccurrence) (t : Store)
      → 1 ≤ new.max_attempts
      → create_cron_occurrence trigger_id new revision expression timezone now s ≡ ok (o, t)
      → Inv s.runs s.attempts
      → Inv t.runs t.attempts
  create_cron_occurrence-Inv revision expression timezone o t allowed h inv =
      elim (create_cron-cases revision expression timezone o t h) [
        | inl (e, same) ↦ Inv-same e same inv
        | inr (e, same) ↦ Inv-same refl same (
            insert-Inv (queued_run new now) (queued_run-IsFresh new now allowed) s.runs s.attempts
              t.runs e inv)
      ]
