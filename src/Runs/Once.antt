-- ===== src/Runs/Once.antt =====
-- The same trigger sent again to `create_run` of crates/scheduler-store/src/lib.rs.
use task_scheduler.Prelude.{
  ℕ, String, ◌≡◌, ◌≢◌, refl, sym, subst, ==_refl, eq_iff, Bool, true, false, none, some, List, [],
  ◌∷◌, ◌++◌, any, find, ok, >>=-eq-ok, or_fail, or_fail-ok, guard, find-key, inl, inr, ◌⊎◌, arith,
}
use task_scheduler.Runs.Tables.{
  Run, TriggerIdentity, Store, missing_target, already_a_batch, missing_run, run_key,
}
use task_scheduler.Runs.Triggers.{
  NewRun, first, of_key, is_run, run_trigger, queued_run, insert_trigger, insert_run,
  trigger_target, existing_target, create_run,
}

first-any :
    {A : Type 0} (p : A → Bool) (xs : List A) (x : A) → first p xs ≡ some x → any p xs ≡ true
unfolding first
first-any p [] x h = cc
first-any p (y ∷ xs) x h = ground (arith, first-any p xs x)

first-append :
    {A : Type 0} (p : A → Bool) (xs : List A) (x : A)
    → any p xs ≡ false
    → p x ≡ true
    → first p (xs ++ x ∷ []) ≡ some x
unfolding first
first-append p [] x n h = ground arith
first-append p (y ∷ xs) x n h = ground (arith, first-append p xs x)

-- What the table holds for a schedule and a key.
record Known (schedule_id : ℕ) (key : String) (r : Run) (s : Store) : Type 0 where
  t : TriggerIdentity
  recorded : first (of_key schedule_id key) s.triggers ≡ some t
  a_run : is_run t.target_kind ≡ true
  target : find run_key t.target_id s.runs ≡ some r

insert_trigger-taken :
    (t : TriggerIdentity) (ts : List TriggerIdentity) (key : String)
    → t.idempotency_key ≡ some key
    → any (of_key t.schedule_id key) ts ≡ true
    → insert_trigger t ts ≡ none
unfolding insert_trigger
insert_trigger-taken t ts key k h = ground arith

insert_trigger-free :
    (t : TriggerIdentity) (ts us : List TriggerIdentity) (key : String)
    → t.idempotency_key ≡ some key
    → insert_trigger t ts ≡ some us
    → (any (of_key t.schedule_id key) ts ≡ false) × (us ≡ ts ++ t ∷ [])
unfolding insert_trigger
insert_trigger-free t ts us key k h = ground arith

module _ (trigger_id : ℕ) (new : NewRun) (now : ℕ) (s : Store) (key : String)
    (keyed : new.idempotency_key ≡ some key) where
  Known-again :
      (r : Run) → Known new.schedule_id key r s → create_run trigger_id new now s ≡ ok (r, s)
  unfolding create_run existing_target trigger_target
  Known-again r k =
      let taken =
        insert_trigger-taken (run_trigger trigger_id new now) s.triggers key keyed
          (first-any (of_key new.schedule_id key) s.triggers k.t k.recorded) in
      ground arith

  create_run-sources :
      (r : Run) (t : Store)
      → create_run trigger_id new now s ≡ ok (r, t)
      → ((existing_target new s ≡ ok r) × (t ≡ s))
        ⊎ ((insert_trigger (run_trigger trigger_id new now) s.triggers ≡ some t.triggers)
            × (find run_key new.id t.runs ≡ some r))
        ⊎ ((ts : List TriggerIdentity) × (insert_trigger (run_trigger trigger_id new now) s.triggers
              ≡ some ts)
            × (insert_run (queued_run new now) s.runs ≡ none))
  unfolding create_run
  create_run-sources r t h = ground arith

  existing-Known : (r : Run) → existing_target new s ≡ ok r → Known new.schedule_id key r s
  unfolding existing_target trigger_target
  existing-Known r h =
      let (t, e, h1) = >>=-eq-ok (or_fail (trigger_target new s.triggers) missing_target) _ h in
      let (u, g, h2) = >>=-eq-ok (guard (is_run t.target_kind) already_a_batch) _ h1 in
      record {
        t = t;
        recorded = ground arith;
        a_run = ground arith;
        target = or_fail-ok _ missing_run r h2;
      }

  create_run-Known :
      (r : Run) (t : Store)
      → ((ts : List TriggerIdentity)
          → insert_trigger (run_trigger trigger_id new now) s.triggers ≡ some ts
          → insert_run (queued_run new now) s.runs ≢ none)
      → create_run trigger_id new now s ≡ ok (r, t)
      → Known new.schedule_id key r t
  create_run-Known r t backed h = elim (create_run-sources r t h) [
    | inl (e, same) ↦ subst (Known new.schedule_id key r) (sym same) (existing-Known r e)
    | inr (inl (e, found)) ↦
        let (free, rows) =
          insert_trigger-free (run_trigger trigger_id new now) s.triggers t.triggers key keyed e in
        let own : of_key new.schedule_id key (run_trigger trigger_id new now) ≡ true =
          rw (keyed, ==_refl new.schedule_id) ((eq_iff key key).1 refl) in
        record {
          t = run_trigger trigger_id new now;
          recorded = rw rows (
              first-append (of_key new.schedule_id key) s.triggers (run_trigger trigger_id new now)
                free own);
          a_run = refl;
          target = found;
        }
    | inr (inr (ts, e, n)) ↦ absurd (backed ts e n)
  ]

first-append_some :
    {A : Type 0} (p : A → Bool) (xs ys : List A) (x : A)
    → first p xs ≡ some x
    → first p (xs ++ ys) ≡ some x
unfolding first
first-append_some p [] ys x h = absurd (cc)
first-append_some p (y ∷ xs) ys x h = ground (arith, first-append_some p xs ys x)

-- More triggers, and the run as it is then.
Known-later :
    (i : ℕ) (key : String) (r r' : Run) (t u : Store) (more : List TriggerIdentity)
    → Known i key r t
    → u.triggers ≡ t.triggers ++ more
    → find run_key r.id u.runs ≡ some r'
    → Known i key r' u
Known-later i key r r' t u more k grown now = record {
  t = k.t;
  recorded = rw grown (first-append_some (of_key i key) t.triggers more k.t k.recorded);
  a_run = k.a_run;
  target =
      subst (λ j. find run_key j u.runs ≡ some r')
        (find-key run_key k.t.target_id t.runs r k.target) now;
}

-- A trigger with an idempotency key that `create_run` has answered is answered with the same run when it
-- is sent again for that schedule with that key, under any identifiers, on a store that has grown by any
-- triggers and has that run, in whatever state; and the store stays as it is. A trigger of the first call
-- that is new to `trigger_identities` is new to `runs`.
pub create_run_once :
    (trigger_id trigger_id' : ℕ) (new new' : NewRun) (now now' : ℕ) (s t u : Store) (r r' : Run)
    (key : String) (more : List TriggerIdentity)
    → ((ts : List TriggerIdentity)
        → insert_trigger (run_trigger trigger_id new now) s.triggers ≡ some ts
        → insert_run (queued_run new now) s.runs ≢ none)
    → new.idempotency_key ≡ some key
    → new'.idempotency_key ≡ some key
    → new'.schedule_id ≡ new.schedule_id
    → create_run trigger_id new now s ≡ ok (r, t)
    → u.triggers ≡ t.triggers ++ more
    → find run_key r.id u.runs ≡ some r'
    → create_run trigger_id' new' now' u ≡ ok (r', u)
create_run_once trigger_id trigger_id' new new' now now' s t u r r' key more backed k k' same h
      grown now_there =
    Known-again trigger_id' new' now' u key k' r' (
      subst (λ i. Known i key r' u) (sym same)
        (Known-later new.schedule_id key r r' t u more
          (create_run-Known trigger_id new now s key k r t backed h) grown now_there))
