-- ===== src/Agent/Runner.antt =====
-- What one lifetime of the agent does with an attempt: bins/agent/src/ledger.rs, whose lock file keeps
-- every other lifetime away from the ledger.
use task_scheduler.Prelude.{
  ℕ, String, ◌≡◌, refl, subst, Bool, true, false, not, ◌&&◌, some, List, [], ◌∷◌, ◌==◌, ==_refl,
  if◌then◌else◌, find, update, update_where, matched, keep, find-update, find-append_some,
  Bool-cases, inl, inr, ◌⊎◌, ok, arith,
}
use task_scheduler.Agent.Ledger.{
  Assignment, assignment_key, AssignmentState, new_assignment, is_recoverable, record_assignment,
  may_claim, take, claim, may_start, begin, start, may_cancel, stop, cancel, may_finish, finish,
  save_result, may_acknowledge, acknowledge, recover_loop, recoverable_assignments, sort_by_age,
}
use task_scheduler.Agent.Ownership.{changed-row, refused, admitted}

-- The calls of one runner, on any attempts. `readable` says which texts can be read.
pub data Call (runner : ℕ) (s t : List Assignment) : Type 0 where
  recording :
      (attempt_id lease_token : ℕ) (json : String) (now : ℕ) (new : Bool)
      → record_assignment attempt_id lease_token json now s ≡ ok (new, t)
      → Call runner s t
  claiming :
      (attempt_id lease_token : ℕ) (json : String) (now : ℕ)
      → (claim runner attempt_id lease_token json now s).1 ≡ t
      → Call runner s t
  starting : (attempt_id now : ℕ) → (start runner attempt_id now s).1 ≡ t → Call runner s t
  cancelling : (attempt_id now : ℕ) → (cancel attempt_id now s).1 ≡ t → Call runner s t
  saving :
      (attempt_id : ℕ) (json : String) (now : ℕ)
      → save_result runner attempt_id json now s ≡ ok t
      → Call runner s t
  acknowledging : (attempt_id now : ℕ) → acknowledge attempt_id now s ≡ ok t → Call runner s t
  recovering :
      (readable : String → Bool) (now : ℕ)
      → (recoverable_assignments readable runner now s).1 ≡ t
      → Call runner s t

pub data Calls (runner : ℕ) (s : List Assignment) : List Assignment → Type 0 where
  none_yet : Calls runner s s
  and_then : {t u : List Assignment} → Calls runner s t → Call runner t u → Calls runner s u

-- The runner can neither claim nor start the row.
abbrev is_spent : ℕ → Assignment → Bool
is_spent runner a = not (is_recoverable runner a) && not (may_start runner a)

module _ (runner id : ℕ) where
  abbrev HasSpent : List Assignment → Type 0
  HasSpent rows =
      (a : Assignment) × (find assignment_key id rows ≡ some a) × (is_spent runner a ≡ true)

  update-HasSpent :
      (k : ℕ) (f : Assignment → Assignment) (rows : List Assignment)
      → ((a : Assignment) → (f a).attempt_id ≡ a.attempt_id)
      → ((a : Assignment) → is_spent runner a ≡ true → is_spent runner (f a) ≡ true)
      → HasSpent rows
      → HasSpent (update assignment_key k f rows)
  update-HasSpent k f rows same keeps (a, found, spent) =
      let read = find-update assignment_key k id f rows same in
      elim (Bool-cases (k == id)) [
        | inl e ↦ (f a, rw (read, e, found), keeps a spent)
        | inr e ↦ (a, rw (read, e, found), spent)
      ]

  where-HasSpent :
      (k : ℕ) (p : Assignment → Bool) (f : Assignment → Assignment) (rows : List Assignment)
      → ((a : Assignment) → (f a).attempt_id ≡ a.attempt_id)
      → ((a : Assignment) → is_spent runner a ≡ true → p a ≡ true → is_spent runner (f a) ≡ true)
      → HasSpent rows
      → HasSpent (update_where assignment_key k p f rows)
  unfolding update_where
  where-HasSpent k p f rows same keeps h =
      update-HasSpent k (λ x. if p x then f x else x) rows (λ a. ground (arith, same a))
        (λ a spent. elim (Bool-cases (p a)) [ inl e ↦ rw e (keeps a spent e) | inr e ↦ rw e spent ])
        h

  claim-spent :
      (lease_token now : ℕ) (json : String) (a : Assignment)
      → is_spent runner a ≡ true
      → may_claim runner lease_token json a ≡ true
      → is_spent runner (take runner now a) ≡ true
  claim-spent lease_token now json a spent may = ground (arith, spent, may)

  start-spent :
      (now : ℕ) (a : Assignment)
      → is_spent runner a ≡ true
      → may_start runner a ≡ true
      → is_spent runner (begin now a) ≡ true
  start-spent now a spent may = ground (arith, spent, may)

  stop-spent :
      (now : ℕ) (a : Assignment)
      → is_spent runner a ≡ true
      → may_cancel a ≡ true
      → is_spent runner (stop now a) ≡ true
  stop-spent now a spent may = ground (arith, spent, may)

  record-HasSpent :
      (attempt_id lease_token : ℕ) (json : String) (now : ℕ) (new : Bool) (s t : List Assignment)
      → record_assignment attempt_id lease_token json now s ≡ ok (new, t)
      → HasSpent s
      → HasSpent t
  unfolding record_assignment
  record-HasSpent attempt_id lease_token json now new s t h (a, found, spent) = (
    a,
    ground (
      arith,
      find-append_some assignment_key id s (new_assignment attempt_id lease_token json now) a,
    ),
    spent,
  )

  save-HasSpent :
      (attempt_id : ℕ) (json : String) (now : ℕ) (s t : List Assignment)
      → save_result runner attempt_id json now s ≡ ok t
      → HasSpent s
      → HasSpent t
  save-HasSpent attempt_id json now s t h spent = elim (save-cases h) [
    | inl e ↦ subst HasSpent e (
        where-HasSpent attempt_id (may_finish runner) (finish json now) s (λ a. refl)
          (λ a _ _. refl) spent)
    | inr e ↦ subst HasSpent e spent
  ]
    where
      save-cases :
          save_result runner attempt_id json now s ≡ ok t
          → (update_where assignment_key attempt_id (may_finish runner) (finish json now) s ≡ t)
            ⊎ (s ≡ t)
      save-cases k = unfold save_result in ground (arith, k)

  recover-HasSpent :
      (readable : String → Bool) (selected : List Assignment) (now : ℕ) (rows : List Assignment)
      → HasSpent rows
      → HasSpent (recover_loop readable selected now rows).1
  unfolding recover_loop
  recover-HasSpent readable [] now rows h = h
  recover-HasSpent readable (a ∷ selected) now rows h =
      elim (Bool-cases (readable a.assignment_json)) [
        | inl e ↦ rw e (recover-HasSpent readable selected now rows h)
        | inr e ↦ rw e (
            recover-HasSpent readable selected now _ (
              update-HasSpent a.attempt_id
                (λ x. record x { state = AssignmentState.quarantined; updated_at = now }) rows
                (λ x. refl) (λ x _. refl) h))
      ]

  acknowledge-HasSpent :
      (attempt_id now : ℕ) (s t : List Assignment)
      → acknowledge attempt_id now s ≡ ok t
      → HasSpent s
      → HasSpent t
  acknowledge-HasSpent attempt_id now s t h spent = elim (acknowledge-cases h) [
    | inl e ↦ subst HasSpent e (
        where-HasSpent attempt_id may_acknowledge
          (λ a. record a { state = AssignmentState.acknowledged; updated_at = now }) s (λ a. refl)
          (λ a _ _. refl) spent)
    | inr e ↦ subst HasSpent e spent
  ]
    where
      acknowledge-cases :
          acknowledge attempt_id now s ≡ ok t
          → (update_where assignment_key attempt_id may_acknowledge
                (λ a. record a { state = AssignmentState.acknowledged; updated_at = now })
                s
              ≡ t)
            ⊎ (s ≡ t)
      acknowledge-cases k = unfold acknowledge in ground (arith, k)

  Call-HasSpent : {s t : List Assignment} → Call runner s t → HasSpent s → HasSpent t
  unfolding claim start cancel recoverable_assignments
  Call-HasSpent {s} {t} (recording attempt_id lease_token json now new h) spent =
      record-HasSpent attempt_id lease_token json now new s t h spent
  Call-HasSpent {s} {t} (claiming attempt_id lease_token json now e) spent = subst HasSpent e (
      where-HasSpent attempt_id (may_claim runner lease_token json) (take runner now) s (λ a. refl)
        (claim-spent lease_token now json) spent)
  Call-HasSpent {s} {t} (starting attempt_id now e) spent = subst HasSpent e (
      where-HasSpent attempt_id (may_start runner) (begin now) s (λ a. refl) (start-spent now)
        spent)
  Call-HasSpent {s} {t} (cancelling attempt_id now e) spent =
      subst HasSpent e
        (where-HasSpent attempt_id may_cancel (stop now) s (λ a. refl) (stop-spent now) spent)
  Call-HasSpent {s} {t} (saving attempt_id json now h) spent =
      save-HasSpent attempt_id json now s t h spent
  Call-HasSpent {s} {t} (acknowledging attempt_id now h) spent =
      acknowledge-HasSpent attempt_id now s t h spent
  Call-HasSpent {s} {t} (recovering readable now e) spent =
      subst HasSpent e
        (recover-HasSpent readable (sort_by_age (keep (is_recoverable runner) s)) now s spent)

  Calls-HasSpent : {s t : List Assignment} → Calls runner s t → HasSpent s → HasSpent t
  Calls-HasSpent none_yet spent = spent
  Calls-HasSpent (and_then calls call) spent = Call-HasSpent call (Calls-HasSpent calls spent)

unclaimable :
    (runner lease_token : ℕ) (json : String) (a : Assignment)
    → is_spent runner a ≡ true
    → may_claim runner lease_token json a ≡ false
unclaimable runner lease_token json a h = ground (arith, h)

-- When a runner has claimed an attempt, it cannot claim it again at once, and can start it. From then on,
-- after any calls of that runner on any attempts, it can neither claim nor start it again, and trying
-- changes nothing: while no other runner uses the ledger, one lifetime of the agent starts an attempt
-- once.
pub run_once :
    (runner attempt_id lease_token lease_token' : ℕ) (json json' : String) (t u v : ℕ)
    (rows left : List Assignment)
    → (claim runner attempt_id lease_token json t rows).0 ≡ true
    → Calls runner
        (start runner attempt_id u (claim runner attempt_id lease_token json t rows).1).1
        left
    → let claimed = (claim runner attempt_id lease_token json t rows).1 in
      ((claim runner attempt_id lease_token' json' v claimed).0 ≡ false)
      × ((start runner attempt_id u claimed).0 ≡ true)
      × (claim runner attempt_id lease_token' json' v left ≡ (false, left))
      × (start runner attempt_id v left ≡ (false, left))
unfolding claim start
run_once runner attempt_id lease_token lease_token' json json' t u v rows left h calls =
    let (a, found, ready, taken) =
      changed-row attempt_id (may_claim runner lease_token json) (take runner t) rows (λ x. refl)
        h in
    let claimed =
      update_where assignment_key attempt_id (may_claim runner lease_token json) (take runner t)
        rows in
    let own = ==_refl runner in
    let again =
      refused attempt_id (may_claim runner lease_token' json') (take runner v) claimed
        (take runner t a) taken (ground arith) in
    let may : matched assignment_key attempt_id (may_start runner) claimed ≡ true =
      admitted attempt_id (may_start runner) claimed (take runner t a) taken (ground arith) in
    let (b, found', _, begun) =
      changed-row attempt_id (may_start runner) (begin u) claimed (λ x. refl) may in
    let one : b ≡ take runner t a = ground arith in
    let spent : is_spent runner (begin u b) ≡ true = ground arith in
    let (c, there, still) = Calls-HasSpent runner attempt_id calls (begin u b, begun, spent) in
    let no_claim =
      refused attempt_id (may_claim runner lease_token' json') (take runner v) left c there
        (unclaimable runner lease_token' json' c still) in
    let no_start =
      refused attempt_id (may_start runner) (begin v) left c there (ground (arith, still)) in
    (again.0, may, ground arith, ground arith)
