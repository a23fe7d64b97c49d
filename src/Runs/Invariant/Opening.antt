-- ===== src/Runs/Invariant/Opening.antt =====
-- The transactions of Runs/Offers and the invariant.
use task_scheduler.Prelude.{
  or_fail-ok, ℕ, ◌+◌, String, ◌≡◌, refl, subst, true, false, ◌&&◌, Option, none, some, List, [],
  ◌∷◌, ◌++◌, ◌==◌, ==_iff, find, update, arith, map_row, find-update, total-append, Bool-cases, inl,
  inr, ◌⊎◌, ==_refl, ok, >>=-eq-ok, or_fail,
}
use task_scheduler.Domain.{RunState, ExecutionResult}
use task_scheduler.Runs.Tables.{
  Attempt, Run, Store, invalid_offer, invalid_lease, run_key, attempt_key, is_some, is_queued,
  is_offered, is_leased, insert_attempt, after_seconds, u32,
}
use task_scheduler.Runs.Batches.{sync_batch_run_state, sync-keeps}
use task_scheduler.Runs.Offers.{
  selected, select-found, max_attempt_number, new_offer, start_queued, offer_run, create_attempt,
  select_attempt, release_row, release_offer, withdraw, requeue_running, reject_offer,
  record_rejection, requeue_now, accept_attempt, take_lease, recount, count_accepted,
}
use task_scheduler.Runs.Invariant.Tally.{
  of_run, live_of, accepted_of, pending_of, stray_of, tally, RunFits, Fits, Inv, Inv-same, Tally,
  is_pending,
}
use task_scheduler.Runs.Invariant.Change.{change-Inv, Moves}

insert_attempt-ok :
    (a : Attempt) (xs ys : List Attempt) → insert_attempt a xs ≡ ok ys → ys ≡ xs ++ a ∷ []
unfolding insert_attempt
insert_attempt-ok a xs ys h = ground arith

offer-Fits :
    (r : Run) (a : Attempt) (xs : List Attempt) (now : ℕ)
    → is_queued r.state ≡ true
    → is_pending a ≡ true
    → is_some a.accepted_at ≡ false
    → RunFits r (tally a.run_id xs)
    → RunFits (start_queued now r) (tally a.run_id (xs ++ a ∷ []))
offer-Fits r a xs now q p n h =
    let id = a.run_id in
    ground (
      arith,
      total-append (live_of id) xs a,
      total-append (accepted_of id) xs a,
      total-append (pending_of id) xs a,
      total-append (stray_of id) xs a,
      ==_refl id,
    )

other-tally :
    (id : ℕ) (a : Attempt) (xs : List Attempt)
    → (a.run_id == id) ≡ false
    → tally id (xs ++ a ∷ []) ≡ tally id xs
other-tally id a xs e = ground (
  arith,
  total-append (of_run id) xs a,
  total-append (live_of id) xs a,
  total-append (accepted_of id) xs a,
  total-append (pending_of id) xs a,
  total-append (stray_of id) xs a,
)

offer-Inv :
    (runs : List Run) (xs : List Attempt) (a : Attempt) (r : Run) (now : ℕ)
    → find run_key a.run_id runs ≡ some r
    → is_queued r.state ≡ true
    → is_pending a ≡ true
    → is_some a.accepted_at ≡ false
    → Inv runs xs
    → Inv (update run_key a.run_id (start_queued now) runs) (xs ++ a ∷ [])
offer-Inv runs xs a r now e q p n inv id =
    rw (find-update run_key a.run_id id (start_queued now) runs (λ r'. ground arith))
      (elim (Bool-cases (a.run_id == id)) [
        | inl same ↦ rw same (
            subst
              (λ j.
                Fits (map_row (start_queued now) (find run_key j runs)) (tally j (xs ++ a ∷ [])))
              ((==_iff a.run_id id).0 same)
              (rw e (
                offer-Fits r a xs now q p n
                  (subst (λ o. Fits o (tally a.run_id xs)) e (inv a.run_id)))))
        | inr other ↦ rw (other, other-tally id a xs other) (inv id)
      ])

module _ (id token run_id : ℕ) (agent_id : String) (lease_seconds now : ℕ) (s : Store) where
  abbrev pub offer_of : Attempt
  offer_of =
      new_offer id run_id (u32 (u32 (max_attempt_number run_id s.attempts) + 1)) agent_id token
        (after_seconds now lease_seconds) now

  -- What a successful offer does to the two tables.
  pub offer_run-rows :
      (o : Option Attempt) (t : Store)
      → offer_run id token run_id agent_id lease_seconds now s ≡ ok (o, t)
      → (t.runs ≡ update run_key run_id (start_queued now) s.runs)
        × (t.attempts ≡ s.attempts ++ offer_of ∷ [])
  unfolding offer_run
  offer_run-rows o t h =
      let (ys, inserted, h1) = >>=-eq-ok (insert_attempt offer_of s.attempts) _ h in
      let s1 = record s { attempts = ys; runs = update run_key run_id (start_queued now) s.runs } in
      let (s2, synced, h2) = >>=-eq-ok (sync_batch_run_state run_id RunState.running now s1) _ h1 in
      let kept = sync-keeps run_id RunState.running now s1 s2 synced in
      ground (arith, insert_attempt-ok offer_of s.attempts ys inserted)

  offer_run-Inv :
      (r : Run) (o : Option Attempt) (t : Store)
      → find run_key run_id s.runs ≡ some r
      → is_queued r.state ≡ true
      → offer_run id token run_id agent_id lease_seconds now s ≡ ok (o, t)
      → Inv s.runs s.attempts
      → Inv t.runs t.attempts
  offer_run-Inv r o t e q h inv =
      let same = offer_run-rows o t h in
      Inv-same same.0 same.1 (offer-Inv s.runs s.attempts offer_of r now e q refl refl inv)

  pub create_attempt-cases :
      (o : Option Attempt) (t : Store)
      → create_attempt id token run_id agent_id lease_seconds now s ≡ ok (o, t)
      → ((t ≡ s) × (o ≡ none))
        ⊎ ((r : Run) × (find run_key run_id s.runs ≡ some r)
            × (is_queued r.state ≡ true)
            × (offer_run id token run_id agent_id lease_seconds now s ≡ ok (o, t)))
  unfolding create_attempt
  create_attempt-cases o t h = ground arith

  pub create_attempt-Inv :
      (o : Option Attempt) (t : Store)
      → create_attempt id token run_id agent_id lease_seconds now s ≡ ok (o, t)
      → Inv s.runs s.attempts
      → Inv t.runs t.attempts
  create_attempt-Inv o t h inv = elim (create_attempt-cases o t h) [
    | inl (same, _) ↦ rw same inv
    | inr (r, e, q, h1) ↦ offer_run-Inv r o t e q h1 inv
  ]

release-RunFits :
    (a : Attempt) (now : ℕ)
    → is_offered a.state ≡ true
    → (r : Run) (u v : Tally) → Moves a (withdraw now a) u v
    → RunFits r u
    → RunFits (requeue_running now r) v
release-RunFits a now p r u v m fits = ground arith

release_row-Inv :
    (now : ℕ) (s t : Store) (a : Attempt)
    → find attempt_key a.id s.attempts ≡ some a
    → is_offered a.state ≡ true
    → release_row (some a) now s ≡ ok t
    → Inv s.runs s.attempts
    → Inv t.runs t.attempts
unfolding release_row
release_row-Inv now s t a e p h inv =
    let s1 = record s {
      attempts = update attempt_key a.id (withdraw now) s.attempts;
      runs = update run_key a.run_id (requeue_running now) s.runs;
    } in
    let kept = sync-keeps a.run_id RunState.queued now s1 t h in
    Inv-same kept.0 kept.1 (
      change-Inv s.runs s.attempts a.id a (withdraw now) e refl (requeue_running now)
        (λ r. ground arith) (λ r _ m fits. release-RunFits a now p r _ _ m fits) inv)

pub release_none : (now : ℕ) (s t : Store) → release_row none now s ≡ ok t → t ≡ s
unfolding release_row
release_none now s t h = ground arith

pub release_offer-Inv :
    (attempt_id now : ℕ) (s t : Store)
    → release_offer attempt_id now s ≡ ok t
    → Inv s.runs s.attempts
    → Inv t.runs t.attempts
unfolding release_offer
release_offer-Inv attempt_id now s t h inv =
    go (select_attempt attempt_id (λ a. is_offered a.state) s.attempts) refl h
  where
    go :
        (o : Option Attempt)
        → select_attempt attempt_id (λ a. is_offered a.state) s.attempts ≡ o
        → release_row o now s ≡ ok t
        → Inv t.runs t.attempts
    go none e h1 = rw (release_none now s t h1) inv
    go (some a) e h1 =
        let (found, offered, _) = selected attempt_id (λ a. is_offered a.state) s.attempts a e in
        release_row-Inv now s t a found offered h1 inv

reject-RunFits :
    (a : Attempt) (result : ExecutionResult) (now : ℕ)
    → is_offered a.state ≡ true
    → (r : Run) (u v : Tally) → Moves a (record_rejection result now a) u v
    → RunFits r u
    → RunFits (requeue_now now r) v
reject-RunFits a result now p r u v m fits = ground arith

pub reject_offer-Inv :
    (attempt_id lease_token : ℕ) (result : ExecutionResult) (now : ℕ) (s t : Store)
    → reject_offer attempt_id lease_token result now s ≡ ok t
    → Inv s.runs s.attempts
    → Inv t.runs t.attempts
unfolding reject_offer
reject_offer-Inv attempt_id lease_token result now s t h inv =
    let p = λ (a : Attempt). a.lease_token == lease_token && is_offered a.state in
    let (a, e, h1) =
      >>=-eq-ok (or_fail (select_attempt attempt_id p s.attempts) invalid_offer) _ h in
    let (found, test) = select-found attempt_id p s.attempts a (or_fail-ok _ invalid_offer a e) in
    let s1 = record s {
      attempts = update attempt_key attempt_id (record_rejection result now) s.attempts;
      runs = update run_key a.run_id (requeue_now now) s.runs;
    } in
    let (s2, synced, h2) = >>=-eq-ok (sync_batch_run_state a.run_id RunState.queued now s1) _ h1 in
    let kept = sync-keeps a.run_id RunState.queued now s1 s2 synced in
    let same : (t.runs ≡ s1.runs) × (t.attempts ≡ s1.attempts) = ground arith in
    Inv-same same.0 same.1 (
      change-Inv s.runs s.attempts attempt_id a (record_rejection result now) found (ground arith)
        (requeue_now now) (λ r. ground arith)
        (λ r _ m fits. reject-RunFits a result now (ground arith) r _ _ m fits) inv)

accept-RunFits :
    (a : Attempt) (lease_seconds now n : ℕ)
    → is_leased a.state ≡ true
    → (r : Run) (u v : Tally) → Moves a (take_lease lease_seconds now a) u v
    → n ≡ v.accepted
    → RunFits r u
    → RunFits (recount n now r) v
accept-RunFits a lease_seconds now n p r u v m e fits = ground arith

pub accept_attempt-Inv :
    (attempt_id lease_token lease_seconds now : ℕ) (s t : Store)
    → accept_attempt attempt_id lease_token lease_seconds now s ≡ ok t
    → Inv s.runs s.attempts
    → Inv t.runs t.attempts
unfolding accept_attempt count_accepted
accept_attempt-Inv attempt_id lease_token lease_seconds now s t h inv =
    let p = λ (a : Attempt). a.lease_token == lease_token && is_leased a.state in
    let (a, e, h1) =
      >>=-eq-ok (or_fail (select_attempt attempt_id p s.attempts) invalid_lease) _ h in
    let (found, test) = select-found attempt_id p s.attempts a (or_fail-ok _ invalid_lease a e) in
    let attempts = update attempt_key attempt_id (take_lease lease_seconds now) s.attempts in
    let n = count_accepted a.run_id attempts in
    let same : (t.runs ≡ update run_key a.run_id (recount n now) s.runs) × (t.attempts ≡ attempts) =
      ground arith in
    Inv-same same.0 same.1 (
      change-Inv s.runs s.attempts attempt_id a (take_lease lease_seconds now) found refl
        (recount n now) (λ r. refl)
        (λ r _ m fits. accept-RunFits a lease_seconds now n (ground arith) r _ _ m refl fits) inv)
