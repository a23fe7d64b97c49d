-- ===== src/Runs/Claims.antt =====
-- The race for a lease: `claim_expired_attempts` against `reauthorize_attempt`, `renew_attempts`,
-- `accept_attempt` and `finish_attempt` of crates/scheduler-store/src/lib.rs.
use task_scheduler.Prelude.{
  ℕ, ◌+◌, ◌≤◌, ◌<◌, String, ◌≡◌, ◌≢◌, refl, sym, subst, true, false, Option, none, some, List, [],
  ◌∷◌, ◌==◌, if◌then◌else◌, find, update, update_where, matched, find-updated, update_fixed, ok,
  err, >>=-eq-ok, or_fail, or_fail-ok, arith, inl, inr, Option-cases,
}
use task_scheduler.Domain.{RunState, ExecutionResult}
use task_scheduler.Runs.Tables.{
  Attempt, AttemptState, Run, Store, invalid_lease, run_key, attempt_key, seconds, max_time,
  after_seconds, after_seconds-in_range,
}
use task_scheduler.Runs.Offers.{select_attempt, selected, accept_attempt}
use task_scheduler.Runs.Leases.{
  extend, renew_loop, renew_attempts, may_resume, resume_row, reauthorize_attempt, unchanged_since,
  expire, claim_expired,
}
use task_scheduler.Runs.Finish.{finish_attempt, finish_attempt_inner, finish_row}

-- The store after one round of the expiry loop.
abbrev pub claimed_store : Attempt → ℕ → ℕ → Store → Store
claimed_store scanned grace now s = record s {
  attempts = (claim_expired scanned grace now s.attempts).1;
}

module _ (scanned : Attempt) (grace now : ℕ) (s : Store)
    (won : (claim_expired scanned grace now s.attempts).0 ≡ true) where
  won-late : scanned.lease_expires_at + grace < now
  unfolding claim_expired
  won-late = ground arith

  won-row :
      (a : Attempt) × (find attempt_key scanned.id s.attempts ≡ some a)
      × (unchanged_since scanned a ≡ true)
      × ((claim_expired scanned grace now s.attempts).1
          ≡ update_where attempt_key scanned.id (unchanged_since scanned) (expire now) s.attempts)
  unfolding claim_expired matched
  won-row = elim (Option-cases (find attempt_key scanned.id s.attempts)) [
    | inl e ↦ absurd (ground arith)
    | inr (a, e) ↦ (a, e, ground arith, ground arith)
  ]

  -- The row is claimed from then on.
  claimed-row :
      (a : Attempt) × (find attempt_key scanned.id (claimed_store scanned grace now s).attempts
        ≡ some a)
      × (a.state ≡ AttemptState.expiring)
  unfolding update_where
  claimed-row =
      let (a, e, same, rows) = won-row in
      let f = λ (x : Attempt). if unchanged_since scanned x then expire now x else x in
      let found = find-updated attempt_key scanned.id f s.attempts a (λ y. ground arith) e in
      (expire now a, ground arith, refl)

module _ (s : Store) (id : ℕ) (a : Attempt) (found : find attempt_key id s.attempts ≡ some a)
    (gone : a.state ≡ AttemptState.expiring) where
  no-resume :
      (agent_id : String) (lease_token lease_seconds now : ℕ)
      → reauthorize_attempt id agent_id lease_token lease_seconds now s ≡ (false, s)
  unfolding reauthorize_attempt resume_row
  no-resume agent_id lease_token lease_seconds now = ground arith

  no-renewal :
      (agent_id : String) (lease_seconds running now : ℕ)
      → (renew_attempts agent_id (id ∷ []) lease_seconds running now s).0 ≡ []
  unfolding renew_attempts renew_loop matched
  no-renewal agent_id lease_seconds running now = ground arith

  no-acceptance :
      (lease_token lease_seconds now : ℕ)
      → accept_attempt id lease_token lease_seconds now s ≡ err invalid_lease
  unfolding accept_attempt
  no-acceptance lease_token lease_seconds now = ground arith

  expiring-row :
      (jitter : ℕ → ℕ) (r : Run) (result : ExecutionResult) (now : ℕ) (o : Option RunState)
      (t : Store)
      → finish_row jitter a r result false now s ≡ ok (o, t)
      → t ≡ s
  unfolding finish_row
  expiring-row jitter r result now o t h = ground arith

  no-result :
      (jitter : ℕ → ℕ) (lease_token : ℕ) (result : ExecutionResult) (now : ℕ) (state : RunState)
      (t : Store)
      → finish_attempt jitter id lease_token result now s ≡ ok (state, t)
      → t ≡ s
  unfolding finish_attempt finish_attempt_inner
  no-result jitter lease_token result now state t h =
      let p = λ (x : Attempt). x.lease_token == lease_token in
      let ((o, u), e, h0) =
        >>=-eq-ok (finish_attempt_inner jitter id lease_token result false now s) _ h in
      let (x, e1, h1) = >>=-eq-ok (or_fail (select_attempt id p s.attempts) invalid_lease) _ e in
      let (row, _, key) = selected id p s.attempts x (or_fail-ok _ invalid_lease x e1) in
      let (r, owner, h2) = >>=-eq-ok (or_fail (find run_key x.run_id s.runs) invalid_lease) _ h1 in
      let same : x ≡ a =
        ground (arith, subst (λ j. find attempt_key j s.attempts ≡ some x) key row) in
      let kept =
        expiring-row jitter r result now o u
          (subst (λ y. finish_row jitter y r result false now s ≡ ok (o, u)) same h2) in
      ground arith

-- When the expiry loop has claimed an attempt, its deadline and the grace have passed, and in the
-- store that the claim leaves no agent can accept, renew or resume it, whatever its token and the
-- time.
pub claim_excludes :
    (scanned : Attempt) (grace now : ℕ) (s : Store)
    → (claim_expired scanned grace now s.attempts).0 ≡ true
    → let t = claimed_store scanned grace now s in
      (scanned.lease_expires_at + grace < now)
      × ((token lease_seconds at : ℕ)
          → accept_attempt scanned.id token lease_seconds at t ≡ err invalid_lease)
      × ((agent_id : String) (lease_seconds running at : ℕ)
          → (renew_attempts agent_id (scanned.id ∷ []) lease_seconds running at t).0 ≡ [])
      × ((agent_id : String) (token lease_seconds at : ℕ)
          → reauthorize_attempt scanned.id agent_id token lease_seconds at t ≡ (false, t))
claim_excludes scanned grace now s won =
    let t = claimed_store scanned grace now s in
    let (a, found, gone) = claimed-row scanned grace now s won in
    (
      won-late scanned grace now s won,
      no-acceptance t scanned.id a found gone,
      no-renewal t scanned.id a found gone,
      no-resume t scanned.id a found gone,
    )

-- In the store that the expiry loop's claim of an attempt leaves, a result of its agent that is
-- answered changes nothing.
pub claimed_result_ignored :
    (scanned : Attempt) (grace now : ℕ) (s : Store) (jitter : ℕ → ℕ) (token : ℕ)
    (result : ExecutionResult) (at : ℕ) (state : RunState) (u : Store)
    → (claim_expired scanned grace now s.attempts).0 ≡ true
    → finish_attempt jitter scanned.id token result at (claimed_store scanned grace now s)
      ≡ ok (state, u)
    → u ≡ claimed_store scanned grace now s
claimed_result_ignored scanned grace now s jitter token result at state u won h =
    let (a, found, gone) = claimed-row scanned grace now s won in
    no-result (claimed_store scanned grace now s) scanned.id a found gone jitter token result at
      state u h

-- The row of a lease that was resumed.
resumed-row :
    (id : ℕ) (agent_id : String) (token lease_seconds at : ℕ) (s t : Store)
    → reauthorize_attempt id agent_id token lease_seconds at s ≡ (true, t)
    → (a : Attempt) × (find attempt_key id s.attempts ≡ some a)
      × (may_resume agent_id token s.runs a ≡ true)
      × (at < a.lease_expires_at)
      × (find attempt_key id t.attempts ≡ some (extend (after_seconds at lease_seconds) at a))
      × (t.runs ≡ s.runs)
unfolding reauthorize_attempt resume_row
resumed-row id agent_id token lease_seconds at s t h =
    let p = may_resume agent_id token s.runs in
    elim (Option-cases (select_attempt id p s.attempts)) [
      | inl e ↦ absurd (not-resumed _ e h)
      | inr (a, e) ↦
          let (found, ready, key) = selected id p s.attempts a e in
          let (ahead, rows, runs) = resumed a _ e h in
          let here = subst (λ j. find attempt_key j s.attempts ≡ some a) key found in
          let g = extend (after_seconds at lease_seconds) at in
          let new = find-updated attempt_key id g s.attempts a (λ y. refl) here in
          let at_key =
            subst (λ j. find attempt_key id (update attempt_key j g s.attempts) ≡ some (g a))
              (sym key) new in
          (a, here, ready, ahead, rw rows at_key, runs)
    ]
  where
    not-resumed : (o : Option Attempt) → o ≡ none → resume_row o lease_seconds at s ≡ (true, t) → ⊥
    not-resumed o e h1 = ground arith

    resumed :
        (a : Attempt) (o : Option Attempt)
        → o ≡ some a
        → resume_row o lease_seconds at s ≡ (true, t)
        → (at < a.lease_expires_at)
          × (t.attempts
              ≡ update attempt_key a.id (extend (after_seconds at lease_seconds) at) s.attempts)
          × (t.runs ≡ s.runs)
    resumed a o e h1 = ground arith

-- A changed deadline defeats the claim.
stale-claim :
    (scanned b : Attempt) (grace now : ℕ) (xs : List Attempt)
    → find attempt_key scanned.id xs ≡ some b
    → b.lease_expires_at ≢ scanned.lease_expires_at
    → claim_expired scanned grace now xs ≡ (false, xs)
unfolding claim_expired update_where matched
stale-claim scanned b grace now xs found other = ground (
  arith,
  update_fixed attempt_key scanned.id (λ x. if unchanged_since scanned x then expire now x else x)
      xs b found,
)

-- `reauthorize_attempt` succeeds only for an accepted attempt of that agent and token whose run is
-- running and whose deadline is ahead. It then sets that deadline to `lease_seconds` from the time of
-- the call, and a claim on a row that was scanned with any other deadline fails and changes nothing.
-- The new deadline is in the range of chrono.
pub resumption_wins :
    (scanned : Attempt) (agent_id : String) (token lease_seconds at grace now : ℕ) (s t : Store)
    → reauthorize_attempt scanned.id agent_id token lease_seconds at s ≡ (true, t)
    → at + seconds lease_seconds ≤ max_time
    → at + seconds lease_seconds ≢ scanned.lease_expires_at
    → ((a : Attempt) × (find attempt_key scanned.id s.attempts ≡ some a)
        × (may_resume agent_id token s.runs a ≡ true)
        × (at < a.lease_expires_at)
        × (find attempt_key scanned.id t.attempts
            ≡ some (extend (at + seconds lease_seconds) at a)))
      × (claim_expired scanned grace now t.attempts ≡ (false, t.attempts))
resumption_wins scanned agent_id token lease_seconds at grace now s t h fits other =
    let (a, found, ready, ahead, new, _) =
      resumed-row scanned.id agent_id token lease_seconds at s t h in
    let row =
      subst (λ d. find attempt_key scanned.id t.attempts ≡ some (extend d at a))
        (after_seconds-in_range at lease_seconds fits) new in
    (
      (a, found, ready, ahead, row),
      stale-claim scanned (extend (at + seconds lease_seconds) at a) grace now t.attempts row other,
    )
