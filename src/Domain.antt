-- ===== src/Domain.antt =====
-- crates/scheduler-core/src/domain.rs: the records and enumerations that the parts share.
-- A `Uuid` is a ℕ, a `DateTime<Utc>` the ℕ of its milliseconds, and a `u32` or `u64` a ℕ below
-- `2 ^ 32` or `2 ^ 64`. Ciphertexts, key ids and serialised documents are left out.
pub mod States
pub mod Settings
pub mod AgentId
use task_scheduler.Prelude.{ℕ, String, Bool, Option, none}

pub data RunState : Type 0 where
  queued running succeeded failed cancelled : RunState

pub data FailureCode : Type 0 where
  assignment_rejected parameter_binding_failed executor_start_failed : FailureCode
  executor_process_crashed executor_protocol_error process_spawn_failed : FailureCode
  process_isolation_failed process_exited_non_zero process_crashed process_timed_out : FailureCode
  cancelled agent_lease_expired excel_unsupported excel_startup_failed : FailureCode
  excel_workbook_open_failed excel_correlation_setup_failed excel_macro_failed : FailureCode
  excel_macro_returned_failure excel_invalid_return excel_process_crashed : FailureCode
  excel_cleanup_failed infrastructure_error : FailureCode

pub data FailureOrigin : Type 0 where
  coordinator agent task_executor command_process excel_host_process excel_automation :
      FailureOrigin
  excel_macro : FailureOrigin

pub data FailureStage : Type 0 where
  placement validation parameter_binding executor_start process_start isolation : FailureStage
  execution excel_startup workbook_open correlation_setup macro_invoke : FailureStage
  macro_result cleanup result_decode lease cancellation : FailureStage

pub data ExecutionOutcome : Type 0 where
  succeeded failed infrastructure_error timed_out cancelled lease_expired : ExecutionOutcome

-- The signed codes of a `FailureStatus` are kept as bit patterns; no code computes with them.
pub record FailureStatus : Type 0 where
  pub process_id : Option ℕ
  pub status_code : Option ℕ
  pub status_code_hex : Option String
  pub signal : Option String
  pub hresult : Option ℕ
  pub hresult_hex : Option String

pub record FailureDiagnostic : Type 0 where
  pub code : FailureCode
  pub origin : FailureOrigin
  pub stage : FailureStage
  pub summary : String
  pub retryable : Bool
  pub status : Option FailureStatus

-- FailureDiagnostic::new
abbrev pub new_diagnostic :
    FailureCode → FailureOrigin → FailureStage → String → Bool → FailureDiagnostic
new_diagnostic code origin stage summary retryable = record {
  code = code;
  origin = origin;
  stage = stage;
  summary = summary;
  retryable = retryable;
  status = none;
}

pub record OutputMetadata : Type 0 where
  pub stdout_bytes : ℕ
  pub stderr_bytes : ℕ
  pub stdout_truncated : Bool
  pub stderr_truncated : Bool

-- `exit_code` is the bit pattern of the `i32`.
pub record ExecutionResult : Type 0 where
  pub outcome : ExecutionOutcome
  pub exit_code : Option ℕ
  pub signal : Option String
  pub stdout : String
  pub stderr : String
  pub started_at : ℕ
  pub finished_at : ℕ
  pub error : Option String
  pub output : OutputMetadata
  pub diagnostic : Option FailureDiagnostic

pub record ExecutionPolicy : Type 0 where
  pub max_attempts : ℕ
  pub timeout_seconds : ℕ
  pub initial_backoff_seconds : ℕ
  pub backoff_cap_seconds : ℕ

-- ExecutionPolicy::default
abbrev pub default_policy : ExecutionPolicy
default_policy = record {
  max_attempts = 3;
  timeout_seconds = 3600;
  initial_backoff_seconds = 5;
  backoff_cap_seconds = 300;
}
