-- ===== src/Examples/Stores.antt =====
-- A run of one schedule through its stores: created, offered, accepted, finished.
use task_scheduler.Prelude.{false, none, some, [], ◌∷◌}
use task_scheduler.Domain.{ExecutionOutcome, ExecutionResult}
use task_scheduler.Runs.Tables.{
  Attempt, Run, TriggerKind, Store, run_queued, attempt_offered, attempt_accepted, append_audit,
}
use task_scheduler.Runs.Triggers.{NewRun, queued_run, run_trigger}
use task_scheduler.Runs.Offers.{new_offer, start_queued, take_lease, recount}

abbrev pub empty : Store
empty = record {
  schedules = [];
  triggers = [];
  runs = [];
  attempts = [];
  batches = [];
  items = [];
  schedule_stats = [];
  node_stats = [];
  agents = [];
  audit = [];
}

abbrev pub request : NewRun
request = record {
  id = 1;
  schedule_id = 7;
  trigger_kind = TriggerKind.manual;
  scheduled_at = 100;
  max_attempts = 2;
  initial_backoff_seconds = 5;
  backoff_cap_seconds = 60;
  idempotency_key = some "nightly";
}

-- The same trigger, sent again.
abbrev pub repeated : NewRun
repeated = record request { id = 2; scheduled_at = 900 }

abbrev pub run_one : Run
run_one = queued_run request 100

abbrev pub created_store : Store
created_store = record empty {
  runs = run_one ∷ [];
  triggers = run_trigger 9 request 100 ∷ [];
  audit = run_queued 1 ∷ [];
}

abbrev pub offer : Attempt
offer = new_offer 20 1 1 "node" 77 30100 100

abbrev pub offered_store : Store
offered_store =
    append_audit (attempt_offered 1 20)
      (record created_store { attempts = offer ∷ []; runs = start_queued 100 run_one ∷ [] })

abbrev pub lease : Attempt
lease = record (take_lease 30 200 offer) { lease_expires_at = 30200 }

abbrev pub accepted_store : Store
accepted_store = append_audit (attempt_accepted 1 20) (record offered_store {
  attempts = lease ∷ [];
  runs = recount 1 200 (start_queued 100 run_one) ∷ [];
})

abbrev pub success : ExecutionResult
success = record {
  outcome = ExecutionOutcome.succeeded;
  exit_code = some 0;
  signal = none;
  stdout = "";
  stderr = "";
  started_at = 200;
  finished_at = 700;
  error = none;
  output = record {
    stdout_bytes = 0;
    stderr_bytes = 0;
    stdout_truncated = false;
    stderr_truncated = false;
  };
  diagnostic = none;
}
