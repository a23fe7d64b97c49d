-- ===== src/Domain/States.antt =====
-- The text of a run's state and of an outcome (domain.rs), and the parser of scheduler-store's
-- lib.rs that reads a run's state back from its row.
use task_scheduler.Prelude.{
  String, ◌≡◌, ◌↔◌, refl, sym, subst, Option, none, some, str_eq, eq_iff, arith, if◌then◌else◌,
}
use task_scheduler.Domain.{RunState, ExecutionOutcome}

-- RunState::as_str
unfoldable pub run_state_as_str : RunState → String
run_state_as_str RunState.queued = "queued"
run_state_as_str RunState.running = "running"
run_state_as_str RunState.succeeded = "succeeded"
run_state_as_str RunState.failed = "failed"
run_state_as_str RunState.cancelled = "cancelled"

unfoldable pub parse_state : String → Option RunState
parse_state value =
    if str_eq value "queued"
    then some RunState.queued
    else if str_eq value "running"
    then some RunState.running
    else if str_eq value "succeeded"
    then some RunState.succeeded
    else if str_eq value "failed"
    then some RunState.failed
    else if str_eq value "cancelled"
    then some RunState.cancelled
    else none

-- ExecutionOutcome::as_str
unfoldable pub outcome_as_str : ExecutionOutcome → String
outcome_as_str ExecutionOutcome.succeeded = "succeeded"
outcome_as_str ExecutionOutcome.failed = "failed"
outcome_as_str ExecutionOutcome.infrastructure_error = "infrastructure_error"
outcome_as_str ExecutionOutcome.timed_out = "timed_out"
outcome_as_str ExecutionOutcome.cancelled = "cancelled"
outcome_as_str ExecutionOutcome.lease_expired = "lease_expired"

parse-as_str : (s : RunState) → parse_state (run_state_as_str s) ≡ some s
unfolding parse_state run_state_as_str
parse-as_str RunState.queued = refl
parse-as_str RunState.running = refl
parse-as_str RunState.succeeded = refl
parse-as_str RunState.failed = refl
parse-as_str RunState.cancelled = refl

as_str-parse : (v : String) (s : RunState) → parse_state v ≡ some s → v ≡ run_state_as_str s
unfolding parse_state run_state_as_str
as_str-parse v s h = ground (
  arith,
  eq_iff v "queued",
  eq_iff v "running",
  eq_iff v "succeeded",
  eq_iff v "failed",
  eq_iff v "cancelled",
)

-- Reading a run's state gives a state exactly for the text that writing that state produces.
pub parse_state_iff :
    (v : String) (s : RunState) → (parse_state v ≡ some s) ↔ (v ≡ run_state_as_str s)
parse_state_iff v s =
    (as_str-parse v s, λ e. subst (λ x. parse_state x ≡ some s) (sym e) (parse-as_str s))
