-- ===== src/Runs/Invariant/Change.antt =====
-- One attempt of the table changes, and with it the row of its run.
use task_scheduler.Prelude.{
  ℕ, ◌+◌, ◌≤◌, ◌≡◌, ◌≢◌, refl, subst, false, Option, none, some, List, ◌==◌, ==_iff, one_if, find,
  update, arith, map_row, find-update, total-update, Bool-cases, inl, inr, ==_refl,
}
use task_scheduler.Runs.Tables.{Attempt, Run, run_key, attempt_key, is_some}
use task_scheduler.Runs.Invariant.Tally.{
  is_live, is_pending, is_stray, stray_of, of_run, live_of, accepted_of, pending_of, Tally, tally,
  RunFits, Fits, Inv, total-find, pending-le-live,
}

-- How the counts of a run change with one of its attempts.
pub record Moves (a b : Attempt) (t u : Tally) : Type 0 where
  pub was_live : one_if (is_live a.state) ≤ t.live
  pub live : u.live + one_if (is_live a.state) ≡ t.live + one_if (is_live b.state)
  pub accepted :
      u.accepted + one_if (is_some a.accepted_at) ≡ t.accepted + one_if (is_some b.accepted_at)
  pub pending : u.pending + one_if (is_pending a) ≡ t.pending + one_if (is_pending b)
  pub was_stray : one_if (is_stray a) ≤ t.stray
  pub stray : u.stray + one_if (is_stray a) ≡ t.stray + one_if (is_stray b)
  pub pending_live : u.pending ≤ u.live

module _ (runs : List Run) (attempts : List Attempt) (k : ℕ) (a : Attempt) (f : Attempt → Attempt)
    (found : find attempt_key k attempts ≡ some a) (same_run : (f a).run_id ≡ a.run_id) where
  abbrev pub changed : List Attempt
  changed = update attempt_key k f attempts

  tally_self : Moves a (f a) (tally a.run_id attempts) (tally a.run_id changed)
  tally_self =
      let id = a.run_id in
      ground (
        arith,
        total-find (live_of id) k attempts a found,
        total-update attempt_key (live_of id) k f attempts a found,
        total-update attempt_key (accepted_of id) k f attempts a found,
        total-update attempt_key (pending_of id) k f attempts a found,
        total-find (stray_of id) k attempts a found,
        total-update attempt_key (stray_of id) k f attempts a found,
        pending-le-live id (update attempt_key k f attempts),
      )

  tally_other : (id : ℕ) → (a.run_id == id) ≡ false → tally id changed ≡ tally id attempts
  tally_other id h = ground (
    arith,
    total-update attempt_key (of_run id) k f attempts a found,
    total-update attempt_key (live_of id) k f attempts a found,
    total-update attempt_key (accepted_of id) k f attempts a found,
    total-update attempt_key (pending_of id) k f attempts a found,
    total-update attempt_key (stray_of id) k f attempts a found,
  )

  -- The run of an attempt exists.
  owner : Inv runs attempts → find run_key a.run_id runs ≢ none
  owner inv e = absurd (
      ground (
        arith,
        total-find (of_run a.run_id) k attempts a found,
        subst (λ o. Fits o (tally a.run_id attempts)) e (inv a.run_id),
        ==_refl a.run_id,
      ))

  -- What is to be shown of a change: it keeps the run's row and its counts in step.
  module _ (g : Run → Run) (same_id : (r : Run) → (g r).id ≡ r.id) where
    abbrev pub Keeps : Type 0
    Keeps =
        (r : Run)
        → find run_key a.run_id runs ≡ some r
        → Moves a (f a) (tally a.run_id attempts) (tally a.run_id changed)
        → RunFits r (tally a.run_id attempts)
        → RunFits (g r) (tally a.run_id changed)

    Fits-change :
        Keeps
        → Inv runs attempts
        → (o : Option Run) → find run_key a.run_id runs ≡ o
        → Fits o (tally a.run_id attempts)
        → Fits (map_row g o) (tally a.run_id changed)
    Fits-change keeps inv none e h = absurd (owner inv e)
    Fits-change keeps inv (some r) e h = keeps r e tally_self h

    pub change-Inv :
        Keeps
        → Inv runs attempts
        → Inv (update run_key a.run_id g runs) (update attempt_key k f attempts)
    change-Inv keeps inv id =
        rw (find-update run_key a.run_id id g runs same_id) (elim (Bool-cases (a.run_id == id)) [
          | inl e ↦ rw e (
              subst (λ j. Fits (map_row g (find run_key j runs)) (tally j changed))
                ((==_iff a.run_id id).0 e)
                (Fits-change keeps inv (find run_key a.run_id runs) refl (inv a.run_id)))
          | inr e ↦ rw (e, tally_other id e) (inv id)
        ])

-- A change of one run's row alone.
pub change_run-Inv :
    (runs : List Run) (attempts : List Attempt) (k : ℕ) (g : Run → Run)
    → ((r : Run) → (g r).id ≡ r.id)
    → ((r : Run)
        → find run_key k runs ≡ some r
        → RunFits r (tally k attempts)
        → RunFits (g r) (tally k attempts))
    → Inv runs attempts
    → Inv (update run_key k g runs) attempts
change_run-Inv runs attempts k g same_id keeps inv id =
    rw (find-update run_key k id g runs same_id) (elim (Bool-cases (k == id)) [
      | inl e ↦ rw e (
          subst (λ j. Fits (map_row g (find run_key j runs)) (tally j attempts)) ((==_iff k id).0 e)
            (fits (find run_key k runs) refl (inv k)))
      | inr e ↦ rw e (inv id)
    ])
  where
    fits :
        (o : Option Run)
        → find run_key k runs ≡ o
        → Fits o (tally k attempts)
        → Fits (map_row g o) (tally k attempts)
    fits none e h = h
    fits (some r) e h = keeps r e h
