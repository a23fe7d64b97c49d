-- ===== src/Runs/Invariant/Sweeping.antt =====
-- The transactions of Runs/Collecting and Runs/Fencing, the invariant, and the diagram of
-- Runs/Invariant/Rows.
use task_scheduler.Prelude.{
  ℕ, ◌≤◌, String, ◌≡◌, refl, sym, ap, ◌∙◌, subst, Bool, true, ◌&&◌, Option, none, some, List, [],
  ◌∷◌, ◌==◌, leb, any, not, all, keep, if◌then◌else◌, find, update_all, find-update_all,
  find-append_some, map_row, matched, arith, Bool-cases, inl, inr, ok, >>=-eq-ok, or_fail,
  or_fail-ok, guard, ok_value, ok_state,
}
use task_scheduler.Runs.Tables.{
  Attempt, Run, Batch, BatchItem, Store, unique_violation, missing_batch, not_ready, missing_policy,
  batch_is_terminal, run_key, batch_key, is_queued,
}
use task_scheduler.Runs.Triggers.{insert_run}
use task_scheduler.Runs.Stats.{increment_cancelled_rollup}
use task_scheduler.Runs.Control.{cancel}
use task_scheduler.Runs.Collecting.{
  item_run, of_item, materialize, materialize_all, ready_items, is_ready, is_finalized,
  may_finalize, FinalizeBatchOutcome, already_finalized, finalize_open, finalize_batch, active_in,
  is_open, count_cancelled, cancel_batch,
}
use task_scheduler.Runs.Fencing.{
  is_linked, fence, becomes_poisoned, fence_rows, audit_items, settle_batches, reconcile_confirmed,
}
use task_scheduler.Runs.Invariant.Tally.{Tally, tally, RunFits, Fits, Inv, Inv-same}
use task_scheduler.Runs.Invariant.Rows.{may_follow, may_stay, Follow}
use task_scheduler.Runs.Invariant.Creating.{IsFresh, insert-Inv, insert_run-some}

-- An update of all runs that pass a test.
module _ (p : Run → Bool) (g : Run → Run) (same_id : (r : Run) → (g r).id ≡ r.id) where
  sweep-Inv :
      ((r : Run) (t : Tally) → p r ≡ true → RunFits r t → RunFits (g r) t)
      → (runs : List Run) (xs : List Attempt) → Inv runs xs
      → Inv (update_all p g runs) xs
  sweep-Inv keeps runs xs inv id =
      rw (find-update_all run_key id p g runs same_id) (swept (find run_key id runs) (inv id))
    where
      swept :
          (o : Option Run)
          → Fits o (tally id xs)
          → Fits (map_row (λ r. if p r then g r else r) o) (tally id xs)
      swept none h = h
      swept (some r) h = elim (Bool-cases (p r)) [
        | inl e ↦ rw e (keeps r (tally id xs) e h)
        | inr e ↦ rw e h
      ]

  sweep-Follow :
      ((r : Run) → p r ≡ true → may_follow r.state (g r).state ≡ true)
      → (runs : List Run) → Follow runs (update_all p g runs)
  sweep-Follow moves runs id r h = elim (Bool-cases (p r)) [
    | inl e ↦ (g r, rw (find-update_all run_key id p g runs same_id, h, e), moves r e)
    | inr e ↦ (r, rw (find-update_all run_key id p g runs same_id, h, e), may_stay r.state)
  ]

-- What the two sweeps do to a run.
cancel-RunFits :
    (b now : ℕ) (r : Run) (t : Tally)
    → active_in b r ≡ true
    → RunFits r t
    → RunFits (cancel now r) t
cancel-RunFits b now r t h fits = ground arith

cancel-may_follow :
    (b now : ℕ) (r : Run) → active_in b r ≡ true → may_follow r.state (cancel now r).state ≡ true
unfolding may_follow
cancel-may_follow b now r h = ground arith

fence-RunFits :
    (ids : List ℕ) (now : ℕ) (r : Run) (t : Tally)
    → (is_queued r.state && is_linked ids r.id) ≡ true
    → RunFits r t
    → RunFits (fence now r) t
fence-RunFits ids now r t h fits = ground (arith, h)

fence-may_follow :
    (ids : List ℕ) (now : ℕ) (r : Run)
    → (is_queued r.state && is_linked ids r.id) ≡ true
    → may_follow r.state (fence now r).state ≡ true
unfolding may_follow
fence-may_follow ids now r h = ground (arith, h)

-- The rest of each transaction leaves runs and attempts alone.
abbrev SameRows : Store → Store → Type 0
SameRows s t = (t.runs ≡ s.runs) × (t.attempts ≡ s.attempts)

count_cancelled-SameRows :
    (rs : List Run) (now : ℕ) (s : Store) → SameRows s (count_cancelled rs now s)
unfolding count_cancelled increment_cancelled_rollup
count_cancelled-SameRows [] now s = (refl, refl)
count_cancelled-SameRows (r ∷ rs) now s =
    count_cancelled-SameRows rs now (increment_cancelled_rollup r.schedule_id now s)

audit_items-SameRows :
    (items : List BatchItem) (counts : List (ℕ × ℕ)) (s : Store)
    → SameRows s (audit_items items counts s).1
unfolding audit_items
audit_items-SameRows [] counts s = (refl, refl)
audit_items-SameRows (i ∷ items) counts s = audit_items-SameRows items _ _

settle_batches-SameRows :
    (counts : List (ℕ × ℕ)) (now : ℕ) (s : Store) → SameRows s (settle_batches counts now s)
unfolding settle_batches
settle_batches-SameRows [] now s = (refl, refl)
settle_batches-SameRows ((b, n) ∷ counts) now s = settle_batches-SameRows counts now _

module _ (arrange : List (ℕ × ℕ) → List (ℕ × ℕ)) (ids : List ℕ) (now : ℕ) (s : Store) where
  abbrev fenced : List Run
  fenced = update_all (λ r. is_queued r.state && is_linked ids r.id) (fence now) s.runs

  reconcile-rows :
      ((reconcile_confirmed arrange ids now s).runs ≡ fenced)
      × ((reconcile_confirmed arrange ids now s).attempts ≡ s.attempts)
  unfolding reconcile_confirmed
  reconcile-rows =
      let poisoned = keep (becomes_poisoned ids) s.items in
      let (counts, t) = audit_items poisoned [] (fence_rows ids now s) in
      let audited = audit_items-SameRows poisoned [] (fence_rows ids now s) in
      let settled = settle_batches-SameRows (arrange counts) now t in
      (settled.0 ∙ audited.0, settled.1 ∙ audited.1)

  pub reconcile-Inv :
      Inv s.runs s.attempts
      → Inv
          (reconcile_confirmed arrange ids now s).runs
          (reconcile_confirmed arrange ids now s).attempts
  reconcile-Inv inv = Inv-same reconcile-rows.0 reconcile-rows.1 (
      sweep-Inv (λ r. is_queued r.state && is_linked ids r.id) (fence now) (λ r. refl)
        (fence-RunFits ids now) s.runs s.attempts inv)

  pub reconcile-Follow : Follow s.runs (reconcile_confirmed arrange ids now s).runs
  reconcile-Follow = subst (Follow s.runs) (sym reconcile-rows.0) (
      sweep-Follow (λ r. is_queued r.state && is_linked ids r.id) (fence now) (λ r. refl)
        (fence-may_follow ids now) s.runs)

module _ (batch_id now : ℕ) (s t : Store) (o : List (String × ℕ))
    (h : cancel_batch batch_id now s ≡ ok (o, t)) where
  cancel_batch-rows :
      (t.runs ≡ update_all (active_in batch_id) (cancel now) s.runs) × (t.attempts ≡ s.attempts)
  unfolding cancel_batch
  cancel_batch-rows =
      let (_, g, h1) =
        >>=-eq-ok
          (guard (matched batch_key batch_id (λ b. is_open b.state) s.batches) batch_is_terminal) _
          h in
      let kept = count_cancelled-SameRows (keep (active_in batch_id) s.runs) now s in
      let same = ok_value h1 in
      (sym (ap (λ x. x.1.runs) same), sym (ap (λ x. x.1.attempts) same) ∙ kept.1)

  pub cancel_batch-Inv : Inv s.runs s.attempts → Inv t.runs t.attempts
  cancel_batch-Inv inv = Inv-same cancel_batch-rows.0 cancel_batch-rows.1 (
      sweep-Inv (active_in batch_id) (cancel now) (λ r. refl) (cancel-RunFits batch_id now) s.runs
        s.attempts inv)

  pub cancel_batch-Follow : Follow s.runs t.runs
  cancel_batch-Follow = subst (Follow s.runs) (sym cancel_batch-rows.0) (
      sweep-Follow (active_in batch_id) (cancel now) (λ r. refl) (cancel-may_follow batch_id now)
        s.runs)

-- The policy of an item allows an attempt.
abbrev pub allows_attempt : BatchItem → Bool
allows_attempt i = elim i.max_attempts [ none ↦ true | some n ↦ leb 1 n ]

item_run-IsFresh :
    (b : Batch) (i : BatchItem) (run_id now : ℕ) (r : Run)
    → allows_attempt i ≡ true
    → item_run b i run_id now ≡ ok r
    → IsFresh r
unfolding item_run
item_run-IsFresh b i run_id now r allowed h =
    let (_, _, h1) = >>=-eq-ok (guard i.has_snapshot missing_policy) _ h in
    let (n, e, h2) = >>=-eq-ok (or_fail i.max_attempts missing_policy) _ h1 in
    let (initial, _, h3) = >>=-eq-ok (or_fail i.initial_backoff_seconds missing_policy) _ h2 in
    let (cap, _, h4) = >>=-eq-ok (or_fail i.backoff_cap_seconds missing_policy) _ h3 in
    let attempts = or_fail-ok _ missing_policy n e in
    let one : 1 ≤ n = ground arith in
    subst IsFresh (ok_value h4)
      (record { waits = refl; uncounted = refl; no_offset = refl; allowed = one })

-- Each run that is there stays as it is.
abbrev Kept : List Run → List Run → Type 0
Kept runs runs' =
    (id : ℕ) (r : Run) → find run_key id runs ≡ some r → find run_key id runs' ≡ some r

materialize-keeps :
    (b : Batch) (i : BatchItem) (run_id now : ℕ) (s t : Store)
    → allows_attempt i ≡ true
    → materialize b i run_id now s ≡ ok t
    → (Inv s.runs s.attempts → Inv t.runs t.attempts) × Kept s.runs t.runs
unfolding materialize
materialize-keeps b i run_id now s t allowed h =
    let (r, e, h1) = >>=-eq-ok (item_run b i run_id now) _ h in
    let (_, _, h0) = >>=-eq-ok (guard (not (any (of_item i.id) s.runs)) unique_violation) _ h1 in
    let (runs, f, h2) = >>=-eq-ok (or_fail (insert_run r s.runs) unique_violation) _ h0 in
    let fresh = item_run-IsFresh b i run_id now r allowed e in
    let inserted = or_fail-ok _ unique_violation runs f in
    let same = ok_value h2 in
    let rows = ap (λ x. x.runs) same in
    (
      λ inv.
          Inv-same (sym rows) (sym (ap (λ x. x.attempts) same))
            (insert-Inv r fresh s.runs s.attempts runs inserted inv),
      λ id x found.
          subst (λ rs. find run_key id rs ≡ some x)
            (sym (insert_run-some r s.runs runs inserted).1 ∙ rows)
            (find-append_some run_key id s.runs r x found),
    )

materialize_all-keeps :
    (b : Batch) (items : List BatchItem) (run_ids : ℕ → ℕ) (now : ℕ) (s t : Store)
    → all allows_attempt items ≡ true
    → materialize_all b items run_ids now s ≡ ok t
    → (Inv s.runs s.attempts → Inv t.runs t.attempts) × Kept s.runs t.runs
unfolding materialize_all
materialize_all-keeps b [] run_ids now s t allowed h =
    let same = ok_value h in
    (
      λ inv. subst (λ x. Inv x.runs x.attempts) same inv,
      λ id r found. subst (λ x. find run_key id x.runs ≡ some r) same found,
    )
materialize_all-keeps b (i ∷ items) run_ids now s t allowed h =
    let (u, e, h1) = >>=-eq-ok (materialize b i (run_ids i.id) now s) _ h in
    let first = materialize-keeps b i (run_ids i.id) now s u (ground (arith, allowed)) e in
    let rest = materialize_all-keeps b items run_ids now u t (ground (arith, allowed)) h1 in
    (λ inv. rest.0 (first.0 inv), λ id r found. rest.1 id r (first.1 id r found))

all-keep :
    (p q : BatchItem → Bool) (items : List BatchItem)
    → all p items ≡ true
    → all p (keep q items) ≡ true
all-keep p q [] h = refl
all-keep p q (i ∷ items) h = ground (arith, h, all-keep p q items)

module _ (batch_id token : ℕ) (run_ids : ℕ → ℕ) (now : ℕ) (s t : Store) (o : FinalizeBatchOutcome)
    (allowed : all allows_attempt s.items ≡ true) where
  finalize_found-keeps :
      (b : Batch)
      → (if is_finalized b.state
          then ok (already_finalized, s)
          else finalize_open batch_id token run_ids now s b)
        ≡ ok (o, t)
      → (Inv s.runs s.attempts → Inv t.runs t.attempts) × Kept s.runs t.runs
  finalize_found-keeps b h = elim (Bool-cases (is_finalized b.state)) [
    | inl done ↦
        let same : s ≡ t = ok_state (rw done at h) in
        (
          λ inv. subst (λ x. Inv x.runs x.attempts) same inv,
          λ id r found. subst (λ x. find run_key id x.runs ≡ some r) same found,
        )
    | inr open_yet ↦ opened (rw open_yet at h)
  ]
    where
      opened :
          finalize_open batch_id token run_ids now s b ≡ ok (o, t)
          → (Inv s.runs s.attempts → Inv t.runs t.attempts) × Kept s.runs t.runs
      opened h1 =
          let items = ready_items batch_id s.items in
          let (_, _, h2) = >>=-eq-ok (guard (may_finalize token now b) not_ready) _ h1 in
          let (u, e, h3) = >>=-eq-ok (materialize_all b items run_ids now s) _ h2 in
          let few =
            all-keep allows_attempt (λ i. i.batch_id == batch_id && is_ready i.state) s.items
              allowed in
          let kept = materialize_all-keeps b items run_ids now s u few e in
          let same = ok_state h3 in
          (
            λ inv.
                Inv-same (sym (ap (λ x. x.runs) same)) (sym (ap (λ x. x.attempts) same))
                  (kept.0 inv),
            λ id r found.
                subst (λ rs. find run_key id rs ≡ some r) (ap (λ x. x.runs) same)
                  (kept.1 id r found),
          )

  finalize_batch-keeps :
      finalize_batch batch_id token run_ids now s ≡ ok (o, t)
      → (Inv s.runs s.attempts → Inv t.runs t.attempts) × Kept s.runs t.runs
  unfolding finalize_batch
  finalize_batch-keeps h =
      let (b, _, h1) = >>=-eq-ok (or_fail (find batch_key batch_id s.batches) missing_batch) _ h in
      finalize_found-keeps b h1

  pub finalize_batch-Inv :
      finalize_batch batch_id token run_ids now s ≡ ok (o, t)
      → Inv s.runs s.attempts
      → Inv t.runs t.attempts
  finalize_batch-Inv h inv = (finalize_batch-keeps h).0 inv

  pub finalize_batch-Follow :
      finalize_batch batch_id token run_ids now s ≡ ok (o, t) → Follow s.runs t.runs
  finalize_batch-Follow h id r found = (r, (finalize_batch-keeps h).1 id r found, may_stay r.state)
