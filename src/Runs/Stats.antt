-- ===== src/Runs/Stats.antt =====
-- The rollups of crates/scheduler-store/src/lib.rs: results by schedule and day, and by node.
use task_scheduler.Prelude.{
  ℕ, suc, ◌+◌, ◌-◌, ◌/◌, min, String, Bool, true, false, ◌&&◌, ◌||◌, not, Option, none, some, List,
  [], ◌∷◌, ◌^◌, ◌==◌, ltb, str_eq, one_if, if◌then◌else◌, find,
}
use task_scheduler.Domain.{
  RunState, FailureCode, ExecutionOutcome, ExecutionResult, FailureDiagnostic,
}
use task_scheduler.Runs.Tables.{
  Attempt, Run, DailyStats, NodeStats, Store, run_key, is_failed, is_queued,
}
use task_scheduler.Runs.Batches.{has_succeeded}

-- `format("%Y-%m-%d")`: the number of the UTC day.
abbrev pub day_of : ℕ → ℕ
day_of t = t / 86400000

abbrev pub is_task_failure : FailureCode → Bool
is_task_failure FailureCode.process_exited_non_zero = true
is_task_failure FailureCode.excel_macro_returned_failure = true
is_task_failure _ = false

abbrev pub reports_task_failure : Option FailureDiagnostic → Bool
reports_task_failure none = false
reports_task_failure (some d) = is_task_failure d.code

-- i64::try_from(duration_ms).unwrap_or(i64::MAX)
abbrev pub to_i64 : ℕ → ℕ
to_i64 n = min n (2 ^ 63 - 1)

-- INSERT … ON CONFLICT(schedule_id,day_utc) DO UPDATE: add to the row of that day, or insert one.
unfoldable pub add_daily : DailyStats → List DailyStats → List DailyStats
add_daily d [] = d ∷ []
add_daily d (x ∷ xs) =
    if x.schedule_id == d.schedule_id && x.day == d.day
    then record x {
      succeeded = x.succeeded + d.succeeded;
      business_failed = x.business_failed + d.business_failed;
      infrastructure_failed = x.infrastructure_failed + d.infrastructure_failed;
      cancelled = x.cancelled + d.cancelled;
      retries = x.retries + d.retries;
      duration_count = x.duration_count + d.duration_count;
      duration_sum_ms = x.duration_sum_ms + d.duration_sum_ms;
      updated_at = d.updated_at;
    }
      ∷ xs
    else x ∷ add_daily d xs

-- The row of one finished attempt.
abbrev pub daily_row : Run → RunState → ExecutionResult → ℕ → DailyStats
daily_row r state result duration_ms =
    let business = is_failed state && reports_task_failure result.diagnostic in
    record {
      schedule_id = r.schedule_id;
      day = day_of result.finished_at;
      succeeded = one_if (has_succeeded state);
      business_failed = one_if business;
      infrastructure_failed = one_if (is_failed state && not business);
      cancelled = 0;
      retries = one_if (is_queued state);
      duration_count = 1;
      duration_sum_ms = to_i64 duration_ms;
      updated_at = result.finished_at;
    }

-- `SELECT … FROM runs WHERE id=?`: nothing is inserted for a run that is missing.
abbrev pub add_for_run : (Run → DailyStats) → Option Run → List DailyStats → List DailyStats
add_for_run row none xs = xs
add_for_run row (some r) xs = add_daily (row r) xs

unfoldable pub update_daily_schedule_stats : ℕ → RunState → ExecutionResult → ℕ → Store → Store
unfolding add_daily
update_daily_schedule_stats run_id state result duration_ms s = record s {
  schedule_stats =
      add_for_run (λ r. daily_row r state result duration_ms) (find run_key run_id s.runs)
        s.schedule_stats;
}

-- MAX of two times, the first of which may be NULL
abbrev pub later : Option ℕ → ℕ → Option ℕ
later none t = some t
later (some u) t = if ltb u t then some t else some u

abbrev pub outcome_succeeded : ExecutionOutcome → Bool
outcome_succeeded ExecutionOutcome.succeeded = true
outcome_succeeded _ = false

abbrev pub outcome_cancelled : ExecutionOutcome → Bool
outcome_cancelled ExecutionOutcome.cancelled = true
outcome_cancelled _ = false

-- INSERT … ON CONFLICT(agent_id) DO UPDATE
unfoldable pub add_node_result : String → ExecutionResult → List NodeStats → List NodeStats
add_node_result agent_id result [] =
    record {
      agent_id = agent_id;
      processed_tasks = 1;
      succeeded = one_if (outcome_succeeded result.outcome);
      failed = one_if (not (outcome_succeeded result.outcome || outcome_cancelled result.outcome));
      cancelled = one_if (outcome_cancelled result.outcome);
      last_processed_at = some result.finished_at;
    }
    ∷ []
add_node_result agent_id result (x ∷ xs) =
    if str_eq x.agent_id agent_id
    then record x {
      processed_tasks = x.processed_tasks + 1;
      succeeded = x.succeeded + one_if (outcome_succeeded result.outcome);
      failed =
          x.failed
          + one_if (not (outcome_succeeded result.outcome || outcome_cancelled result.outcome));
      cancelled = x.cancelled + one_if (outcome_cancelled result.outcome);
      last_processed_at = later x.last_processed_at result.finished_at;
    }
      ∷ xs
    else x ∷ add_node_result agent_id result xs

unfoldable pub update_node_processing_stats : String → ExecutionResult → Store → Store
unfolding add_node_result
update_node_processing_stats agent_id result s = record s {
  node_stats = add_node_result agent_id result s.node_stats;
}

-- increment_cancelled_rollup_tx
unfoldable pub increment_cancelled_rollup : ℕ → ℕ → Store → Store
unfolding add_daily
increment_cancelled_rollup schedule_id occurred_at s = record s {
  schedule_stats =
      add_daily
        (record {
          schedule_id = schedule_id;
          day = day_of occurred_at;
          succeeded = 0;
          business_failed = 0;
          infrastructure_failed = 0;
          cancelled = 1;
          retries = 0;
          duration_count = 0;
          duration_sum_ms = 0;
          updated_at = occurred_at;
        })
        s.schedule_stats;
}

-- `ORDER BY finished_at DESC, created_at DESC, id DESC`: `a` comes before `b`. NULL is least.
abbrev finished_rank : Attempt → ℕ
finished_rank a = elim a.finished_at [ none ↦ 0 | some t ↦ suc t ]

abbrev pub comes_first : Attempt → Attempt → Bool
comes_first a b =
    ltb (finished_rank b) (finished_rank a)
    || (finished_rank a == finished_rank b
        && (ltb b.created_at a.created_at || (a.created_at == b.created_at && ltb b.id a.id)))

abbrev pick_first : Attempt → Option Attempt → Option Attempt
pick_first a none = some a
pick_first a (some b) = if comes_first a b then some a else some b

-- The latest attempt of a run: the subquery with `LIMIT 1`.
unfoldable pub latest_attempt : ℕ → List Attempt → Option Attempt
latest_attempt run_id [] = none
latest_attempt run_id (a ∷ xs) =
    let rest = latest_attempt run_id xs in if a.run_id == run_id then pick_first a rest else rest

abbrev latest_diagnostic : Option Attempt → Option FailureDiagnostic
latest_diagnostic none = none
latest_diagnostic (some a) = a.diagnostic

abbrev latest_finish : Option Attempt → ℕ → ℕ
latest_finish none now = now
latest_finish (some a) now = elim a.finished_at [ none ↦ now | some t ↦ t ]

-- UPDATE daily_schedule_stats SET column=MAX(column-1,0) WHERE schedule_id=? AND day_utc=?
unfoldable pub take_failure : Bool → ℕ → ℕ → ℕ → List DailyStats → List DailyStats
take_failure business schedule_id day now [] = []
take_failure business schedule_id day now (x ∷ xs) =
    if x.schedule_id == schedule_id && x.day == day
    then (if business
        then record x { business_failed = x.business_failed - 1; updated_at = now }
        else record x { infrastructure_failed = x.infrastructure_failed - 1; updated_at = now })
      ∷ xs
    else x ∷ take_failure business schedule_id day now xs

abbrev take_failed_run : Option Run → List Attempt → ℕ → List DailyStats → List DailyStats
take_failed_run none attempts now xs = xs
take_failed_run (some r) attempts now xs =
    let last = latest_attempt r.id attempts in
    if is_failed r.state
    then take_failure (reports_task_failure (latest_diagnostic last)) r.schedule_id
        (day_of (latest_finish last now)) now xs
    else xs

unfoldable pub decrement_failed_rollup : ℕ → ℕ → Store → Store
unfolding latest_attempt take_failure
decrement_failed_rollup run_id now s = record s {
  schedule_stats = take_failed_run (find run_key run_id s.runs) s.attempts now s.schedule_stats;
}
