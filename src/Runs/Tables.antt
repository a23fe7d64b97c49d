-- ===== src/Runs/Tables.antt =====
-- The rows of the tables, with the columns that the transactions read or decide by (migrations/*.sql
-- and the records of lib.rs). `finished_at` of a row is empty until a result is stored.
use task_scheduler.Prelude.{
  ℕ, ◌+◌, ◌-◌, ◌*◌, ◌%◌, ◌^◌, ◌≤◌, ◌≡◌, ltb, arith, String, Bool, true, false, ◌&&◌, ◌||◌, Option,
  none, some, List, [], ◌∷◌, ◌++◌, find, any, ◌==◌, if◌then◌else◌, Result, ok, err,
}
use task_scheduler.Domain.{RunState, ExecutionOutcome, FailureDiagnostic, OutputMetadata}

-- attempts.state
pub data AttemptState : Type 0 where
  offered accepted expiring finished late_result offer_failed : AttemptState

pub record Attempt : Type 0 where
  pub id : ℕ
  pub run_id : ℕ
  pub agent_id : String
  pub attempt_number : ℕ
  pub lease_token : ℕ
  pub state : AttemptState
  pub lease_expires_at : ℕ
  pub accepted_at : Option ℕ
  pub started_at : Option ℕ
  pub finished_at : Option ℕ
  pub outcome : Option ExecutionOutcome
  pub diagnostic : Option FailureDiagnostic
  pub output : Option OutputMetadata
  pub exit_code : Option ℕ
  pub signal : Option String
  pub duration_ms : Option ℕ
  pub created_at : ℕ
  pub updated_at : ℕ

pub data TriggerKind : Type 0 where
  manual cron webhook batch_item : TriggerKind

pub record Run : Type 0 where
  pub id : ℕ
  pub schedule_id : ℕ
  pub state : RunState
  pub trigger_kind : TriggerKind
  pub scheduled_at : ℕ
  pub not_before : ℕ
  pub max_attempts : ℕ
  pub initial_backoff_seconds : ℕ
  pub backoff_cap_seconds : ℕ
  pub attempt_count : ℕ
  pub attempt_offset : ℕ
  pub idempotency_key : Option String
  pub batch_id : Option ℕ
  pub batch_item_id : Option ℕ
  pub created_at : ℕ
  pub updated_at : ℕ

-- batches.state and batch_items.state: BatchState and BatchItemState of
-- crates/scheduler-core/src/collection.rs
pub data BatchState : Type 0 where
  scheduled collecting running succeeded completed_with_errors failed cancelled : BatchState

pub data BatchItemState : Type 0 where
  ready queued running succeeded failed cancelled invalid suspected_poison poisoned held :
      BatchItemState

-- trigger_identities: what a trigger was turned into
pub data TargetKind : Type 0 where
  run batch : TargetKind

pub record TriggerIdentity : Type 0 where
  pub id : ℕ
  pub schedule_id : ℕ
  pub trigger_kind : TriggerKind
  pub scheduled_at : ℕ
  pub idempotency_key : Option String
  pub target_kind : TargetKind
  pub target_id : ℕ
  pub created_at : ℕ

-- schedules, with the columns that fence a cron occurrence
pub record Schedule : Type 0 where
  pub id : ℕ
  pub revision : ℕ
  pub enabled : Bool
  pub cron_expression : Option String
  pub cron_timezone : Option String
  pub last_cron_at : Option ℕ

pub record Batch : Type 0 where
  pub id : ℕ
  pub schedule_id : ℕ
  pub state : BatchState
  pub scheduled_at : ℕ
  pub ingestion_complete : Bool
  pub lease_token : Option ℕ
  pub lease_expires_at : Option ℕ
  pub max_active_runs : ℕ
  pub invalid_item_count : ℕ
  pub poisoned_item_count : ℕ
  pub held_item_count : ℕ
  pub finalized_at : Option ℕ
  pub updated_at : ℕ

-- `has_snapshot` says that `encrypted_snapshot` is not NULL.
pub record BatchItem : Type 0 where
  pub id : ℕ
  pub batch_id : ℕ
  pub state : BatchItemState
  pub run_id : Option ℕ
  pub has_snapshot : Bool
  pub max_attempts : Option ℕ
  pub initial_backoff_seconds : Option ℕ
  pub backoff_cap_seconds : Option ℕ
  pub updated_at : ℕ

pub record DailyStats : Type 0 where
  pub schedule_id : ℕ
  pub day : ℕ
  pub succeeded : ℕ
  pub business_failed : ℕ
  pub infrastructure_failed : ℕ
  pub cancelled : ℕ
  pub retries : ℕ
  pub duration_count : ℕ
  pub duration_sum_ms : ℕ
  pub updated_at : ℕ

pub record NodeStats : Type 0 where
  pub agent_id : String
  pub processed_tasks : ℕ
  pub succeeded : ℕ
  pub failed : ℕ
  pub cancelled : ℕ
  pub last_processed_at : Option ℕ

pub record Agent : Type 0 where
  pub id : String
  pub running : ℕ
  pub connected : Bool
  pub last_seen_at : ℕ
  pub updated_at : ℕ

-- audit_events.event_type of a run or a batch, with the identifiers of its metadata
pub data AuditEvent : Type 0 where
  run_queued run_succeeded run_retry_scheduled run_failed run_cancelled run_retried : ℕ → AuditEvent
  batch_cancelled : ℕ → AuditEvent
  item_run_queued item_poison_confirmed batch_poison_confirmed : ℕ → ℕ → AuditEvent
  batch_finalized : ℕ → ℕ → BatchState → AuditEvent
  attempt_offered attempt_rejected attempt_accepted attempt_late_result : ℕ → ℕ → AuditEvent
  batch_reopened : ℕ → ℕ → AuditEvent
  batch_completed : ℕ → BatchState → AuditEvent

pub record Store : Type 0 where
  pub schedules : List Schedule
  pub triggers : List TriggerIdentity
  pub runs : List Run
  pub attempts : List Attempt
  pub batches : List Batch
  pub items : List BatchItem
  pub schedule_stats : List DailyStats
  pub node_stats : List NodeStats
  pub agents : List Agent
  pub audit : List AuditEvent

pub data StoreError : Type 0 where
  unique_violation row_not_found invalid_offer invalid_lease not_eligible : StoreError
  run_is_terminal not_failed : StoreError
  batch_is_terminal missing_batch not_ready missing_policy : StoreError
  wrong_trigger_kind missing_target already_a_batch missing_run : StoreError

abbrev pub run_key : Run → ℕ
run_key r = r.id

abbrev pub attempt_key : Attempt → ℕ
attempt_key a = a.id

abbrev pub batch_key : Batch → ℕ
batch_key b = b.id

abbrev pub item_key : BatchItem → ℕ
item_key i = i.id

abbrev pub seconds : ℕ → ℕ
seconds n = n * 1000

-- The greatest `DateTime<Utc>` of chrono.
abbrev pub max_time : ℕ
max_time = 8210266876799999

-- now + Duration::seconds(n as i64): a `u64` from `2 ^ 63` on is cast to a negative number. A time
-- before 1970 is 0. Where chrono panics, as beyond `max_time`, the transaction does not commit.
unfoldable pub after_seconds : ℕ → ℕ → ℕ
after_seconds now n = if ltb n (2 ^ 63) then now + seconds n else now - seconds (2 ^ 64 - n)

pub after_seconds-in_range :
    (now n : ℕ) → now + seconds n ≤ max_time → after_seconds now n ≡ now + seconds n
unfolding after_seconds
after_seconds-in_range now n h = ground arith

-- `as u32`, and the wrap of `u32` addition
abbrev pub u32 : ℕ → ℕ
u32 n = n % 2 ^ 32

-- append_audit_tx
abbrev pub append_audit : AuditEvent → Store → Store
append_audit e s = record s { audit = s.audit ++ e ∷ [] }

abbrev pub is_offered : AttemptState → Bool
is_offered AttemptState.offered = true
is_offered _ = false

abbrev pub is_accepted : AttemptState → Bool
is_accepted AttemptState.accepted = true
is_accepted _ = false

-- state IN ('offered','accepted')
abbrev pub is_leased : AttemptState → Bool
is_leased AttemptState.offered = true
is_leased AttemptState.accepted = true
is_leased _ = false

abbrev pub is_queued : RunState → Bool
is_queued RunState.queued = true
is_queued _ = false

abbrev pub is_running : RunState → Bool
is_running RunState.running = true
is_running _ = false

abbrev pub is_failed : RunState → Bool
is_failed RunState.failed = true
is_failed _ = false

-- accepted_at IS NOT NULL
abbrev pub is_some {ℓ} : {A : Type ℓ} → Option A → Bool
is_some none = false
is_some (some a) = true

-- INSERT INTO attempts, with the primary key and UNIQUE(run_id, attempt_number)
abbrev same_number : Attempt → Attempt → Bool
same_number a b = b.run_id == a.run_id && b.attempt_number == a.attempt_number

unfoldable pub insert_attempt : Attempt → List Attempt → Result StoreError (List Attempt)
insert_attempt a xs =
    if is_some (find attempt_key a.id xs) || any (same_number a) xs
    then err unique_violation
    else ok (xs ++ a ∷ [])
