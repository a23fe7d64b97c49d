-- ===== src/Runs/Invariant/Rows.antt =====
-- The diagram of the states of a run, and changes of the table of runs along it.
use task_scheduler.Prelude.{
  ℕ, ◌≡◌, refl, sym, subst, Bool, true, false, some, List, [], ◌∷◌, ◌++◌, ◌==◌, ==_iff, find,
  update, find-update, find-append_some, Bool-cases, inl, inr,
}
use task_scheduler.Domain.{RunState}
use task_scheduler.Runs.Tables.{Run, run_key}

-- The moves of a run's state: the source's diagram, and standing still.
unfoldable pub may_follow : RunState → RunState → Bool
may_follow RunState.queued RunState.queued = true
may_follow RunState.queued RunState.running = true
may_follow RunState.queued RunState.failed = true
may_follow RunState.queued RunState.cancelled = true
may_follow RunState.running RunState.running = true
may_follow RunState.running RunState.queued = true
may_follow RunState.running RunState.succeeded = true
may_follow RunState.running RunState.failed = true
may_follow RunState.running RunState.cancelled = true
may_follow RunState.failed RunState.failed = true
may_follow RunState.failed RunState.queued = true
may_follow RunState.succeeded RunState.succeeded = true
may_follow RunState.cancelled RunState.cancelled = true
may_follow _ _ = false

pub may_stay : (s : RunState) → may_follow s s ≡ true
unfolding may_follow
may_stay RunState.queued = refl
may_stay RunState.running = refl
may_stay RunState.succeeded = refl
may_stay RunState.failed = refl
may_stay RunState.cancelled = refl

-- No row is lost, and each moves along the diagram.
abbrev pub Follow : List Run → List Run → Type 0
Follow runs runs' =
    (id : ℕ) (r : Run)
    → find run_key id runs ≡ some r
    → (r' : Run) × (find run_key id runs' ≡ some r') × (may_follow r.state r'.state ≡ true)

pub same-Follow : (runs runs' : List Run) → runs' ≡ runs → Follow runs runs'
same-Follow runs runs' e id r h = (r, rw e h, may_stay r.state)

pub append-Follow : (runs : List Run) (new : Run) → Follow runs (runs ++ new ∷ [])
append-Follow runs new id r h = (r, find-append_some run_key id runs new r h, may_stay r.state)

pub update-Follow :
    (k : ℕ) (g : Run → Run) (runs runs' : List Run)
    → runs' ≡ update run_key k g runs
    → ((r : Run) → (g r).id ≡ r.id)
    → ((r : Run) → find run_key k runs ≡ some r → may_follow r.state (g r).state ≡ true)
    → Follow runs runs'
update-Follow k g runs runs' e same_id moves id r h = elim (Bool-cases (k == id)) [
  | inl q ↦ (
    g r,
    rw (e, find-update run_key k id g runs same_id, q, h),
    moves r (subst (λ j. find run_key j runs ≡ some r) (sym ((==_iff k id).0 q)) h),
  )
  | inr q ↦ (r, rw (e, find-update run_key k id g runs same_id, q, h), may_stay r.state)
]
