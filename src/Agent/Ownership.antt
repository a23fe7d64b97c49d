-- ===== src/Agent/Ownership.antt =====
-- What becomes of the result of an assignment, with lemmas on changes of one row: bins/agent/src/ledger.rs.
use task_scheduler.Prelude.{
  ℕ, String, ◌≡◌, refl, Bool, true, false, Option, none, some, List, eq_iff, str_eq, if◌then◌else◌,
  find, update_where, matched, find-updated, update_fixed, Option-cases, Bool-cases, inl, inr, ok,
  err, arith,
}
use task_scheduler.Agent.Ledger.{
  Assignment, assignment_key, may_claim, take, claim, may_start, begin, start, may_cancel, stop,
  cancel, may_finish, finish, is_saved, save_result, not_eligible, may_acknowledge,
}

-- A conditional update of one row, and the row afterwards.
module _ (k : ℕ) (p : Assignment → Bool) (f : Assignment → Assignment)
    (rows : List Assignment) where
  pub changed-row :
      ((a : Assignment) → (f a).attempt_id ≡ a.attempt_id)
      → matched assignment_key k p rows ≡ true
      → (a : Assignment) × (find assignment_key k rows ≡ some a)
        × (p a ≡ true)
        × (find assignment_key k (update_where assignment_key k p f rows) ≡ some (f a))
  unfolding matched update_where
  changed-row same h = elim (Option-cases (find assignment_key k rows)) [
    | inl e ↦ absurd (ground arith)
    | inr (a, e) ↦ (
      a,
      e,
      ground arith,
      ground (
        arith,
        find-updated assignment_key k (λ x. if p x then f x else x) rows a
            (λ y. ground (arith, same y)) e,
      ),
    )
  ]

  pub refused :
      (a : Assignment)
      → find assignment_key k rows ≡ some a
      → p a ≡ false
      → (matched assignment_key k p rows ≡ false) × (update_where assignment_key k p f rows ≡ rows)
  unfolding matched update_where
  refused a e h = (
    ground arith,
    ground (arith, update_fixed assignment_key k (λ x. if p x then f x else x) rows a e),
  )

pub admitted :
    (k : ℕ) (p : Assignment → Bool) (rows : List Assignment) (a : Assignment)
    → find assignment_key k rows ≡ some a
    → p a ≡ true
    → matched assignment_key k p rows ≡ true
unfolding matched
admitted k p rows a e h = ground arith

-- The row of an attempt whose result was saved.
saved-row :
    (runner attempt_id : ℕ) (json : String) (now : ℕ) (rows left : List Assignment)
    → save_result runner attempt_id json now rows ≡ ok left
    → (a : Assignment) × (find assignment_key attempt_id left ≡ some a)
      × (is_saved runner json a ≡ true)
unfolding save_result
saved-row runner attempt_id json now rows left h =
    elim (Bool-cases (matched assignment_key attempt_id (may_finish runner) rows)) [
      | inl e ↦
          let (a, found, ready, done) =
            changed-row attempt_id (may_finish runner) (finish json now) rows (λ x. refl) e in
          let same = (eq_iff json json).1 refl in (finish json now a, ground arith, ground arith)
      | inr e ↦ kept (ground arith)
    ]
  where
    kept :
        (matched assignment_key attempt_id (is_saved runner json) rows ≡ true) × (left ≡ rows)
        → (a : Assignment) × (find assignment_key attempt_id left ≡ some a)
          × (is_saved runner json a ≡ true)
    kept (m, same) =
        let (a, found, ready, _) =
          changed-row attempt_id (is_saved runner json) (λ x. x) rows (λ x. refl) m in
        (a, rw same found, ready)

save-same :
    (runner attempt_id : ℕ) (json : String) (at : ℕ) (left : List Assignment) (a : Assignment)
    → find assignment_key attempt_id left ≡ some a
    → is_saved runner json a ≡ true
    → save_result runner attempt_id json at left ≡ ok left
unfolding save_result matched
save-same runner attempt_id json at left a found saved = ground arith

save-other :
    (runner attempt_id : ℕ) (json json' : String) (at : ℕ) (left : List Assignment) (a : Assignment)
    → find assignment_key attempt_id left ≡ some a
    → is_saved runner json a ≡ true
    → str_eq json json' ≡ false
    → save_result runner attempt_id json' at left ≡ err not_eligible
unfolding save_result matched
save-other runner attempt_id json json' at left a found saved differ = other a.result_json refl
  where
    other :
        (o : Option String)
        → a.result_json ≡ o
        → save_result runner attempt_id json' at left ≡ err not_eligible
    other none e = ground arith
    other (some r) e = ground (arith, eq_iff r json)

-- A saved result is kept until it is acknowledged: no runner can claim, start or cancel its attempt, the
-- attempt may be acknowledged, and saving again succeeds for the same text and fails for any other;
-- none of this changes the table.
pub result_kept :
    (runner other attempt_id lease_token : ℕ) (json json' text : String) (now at : ℕ)
    (rows left : List Assignment)
    → save_result runner attempt_id json now rows ≡ ok left
    → str_eq json json' ≡ false
    → (claim other attempt_id lease_token text at left ≡ (false, left))
      × (start other attempt_id at left ≡ (false, left))
      × (cancel attempt_id at left ≡ (false, left))
      × (matched assignment_key attempt_id may_acknowledge left ≡ true)
      × (save_result runner attempt_id json at left ≡ ok left)
      × (save_result runner attempt_id json' at left ≡ err not_eligible)
unfolding claim start cancel
result_kept runner other attempt_id lease_token json json' text now at rows left h differ =
    let (a, found, saved) = saved-row runner attempt_id json now rows left h in
    let claims =
      refused attempt_id (may_claim other lease_token text) (take other at) left a found
        (ground arith) in
    let starts = refused attempt_id (may_start other) (begin at) left a found (ground arith) in
    let cancels = refused attempt_id may_cancel (stop at) left a found (ground arith) in
    (
      ground arith,
      ground arith,
      ground arith,
      admitted attempt_id may_acknowledge left a found (ground arith),
      save-same runner attempt_id json at left a found saved,
      save-other runner attempt_id json json' at left a found saved differ,
    )
