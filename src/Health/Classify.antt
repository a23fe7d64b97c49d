-- ===== src/Health/Classify.antt =====
-- The stable rules that attribute a failure (health.rs, its first third).
use task_scheduler.Prelude.{
  ℕ, ◌≡◌, ◌↔◌, ◌≢◌, refl, Option, none, some, Bool, true, false, arith, ◌⊎◌, inl, inr,
}
use task_scheduler.Domain.{FailureCode, FailureDiagnostic, ExecutionOutcome}

pub data FailureFamily : Type 0 where
  functional cancellation lease executor_availability binding_availability : FailureFamily
  isolation process_launch crash timeout excel_host excel_invocation : FailureFamily
  excel_contract cleanup infrastructure : FailureFamily

pub data HealthEvidenceClass : Type 0 where
  functional ignore cluster_sensitive ambiguous strong_node_local : HealthEvidenceClass

abbrev pub health_classifier_version : ℕ
health_classifier_version = 1

pub record HealthClassification : Type 0 where
  pub version : ℕ
  pub class : HealthEvidenceClass
  pub family : FailureFamily

abbrev pub classification : HealthEvidenceClass → FailureFamily → HealthClassification
classification class family = record {
  version = health_classifier_version;
  class = class;
  family = family;
}

unfoldable pub classify_failure_code : FailureCode → HealthClassification
classify_failure_code FailureCode.process_exited_non_zero =
    classification HealthEvidenceClass.functional FailureFamily.functional
classify_failure_code FailureCode.excel_macro_returned_failure =
    classification HealthEvidenceClass.functional FailureFamily.functional
classify_failure_code FailureCode.cancelled =
    classification HealthEvidenceClass.ignore FailureFamily.cancellation
classify_failure_code FailureCode.agent_lease_expired =
    classification HealthEvidenceClass.cluster_sensitive FailureFamily.lease
classify_failure_code FailureCode.executor_start_failed =
    classification HealthEvidenceClass.strong_node_local FailureFamily.executor_availability
classify_failure_code FailureCode.executor_protocol_error =
    classification HealthEvidenceClass.strong_node_local FailureFamily.executor_availability
classify_failure_code FailureCode.excel_unsupported =
    classification HealthEvidenceClass.strong_node_local FailureFamily.executor_availability
classify_failure_code FailureCode.parameter_binding_failed =
    classification HealthEvidenceClass.strong_node_local FailureFamily.binding_availability
classify_failure_code FailureCode.process_isolation_failed =
    classification HealthEvidenceClass.strong_node_local FailureFamily.isolation
classify_failure_code FailureCode.excel_startup_failed =
    classification HealthEvidenceClass.strong_node_local FailureFamily.excel_host
classify_failure_code FailureCode.assignment_rejected =
    classification HealthEvidenceClass.ambiguous FailureFamily.process_launch
classify_failure_code FailureCode.process_spawn_failed =
    classification HealthEvidenceClass.ambiguous FailureFamily.process_launch
classify_failure_code FailureCode.executor_process_crashed =
    classification HealthEvidenceClass.ambiguous FailureFamily.crash
classify_failure_code FailureCode.process_crashed =
    classification HealthEvidenceClass.ambiguous FailureFamily.crash
classify_failure_code FailureCode.excel_process_crashed =
    classification HealthEvidenceClass.ambiguous FailureFamily.crash
classify_failure_code FailureCode.process_timed_out =
    classification HealthEvidenceClass.ambiguous FailureFamily.timeout
classify_failure_code FailureCode.excel_workbook_open_failed =
    classification HealthEvidenceClass.ambiguous FailureFamily.excel_invocation
classify_failure_code FailureCode.excel_correlation_setup_failed =
    classification HealthEvidenceClass.ambiguous FailureFamily.excel_invocation
classify_failure_code FailureCode.excel_macro_failed =
    classification HealthEvidenceClass.ambiguous FailureFamily.excel_invocation
classify_failure_code FailureCode.excel_invalid_return =
    classification HealthEvidenceClass.ambiguous FailureFamily.excel_contract
classify_failure_code FailureCode.excel_cleanup_failed =
    classification HealthEvidenceClass.ambiguous FailureFamily.cleanup
classify_failure_code FailureCode.infrastructure_error =
    classification HealthEvidenceClass.ambiguous FailureFamily.infrastructure

-- The last `match` of `classify_result`, on a result with no diagnostic.
unfoldable pub classify_outcome : ExecutionOutcome → HealthClassification
classify_outcome ExecutionOutcome.succeeded =
    classification HealthEvidenceClass.functional FailureFamily.functional
classify_outcome ExecutionOutcome.cancelled =
    classification HealthEvidenceClass.ignore FailureFamily.cancellation
classify_outcome ExecutionOutcome.lease_expired =
    classification HealthEvidenceClass.cluster_sensitive FailureFamily.lease
classify_outcome ExecutionOutcome.timed_out =
    classification HealthEvidenceClass.ambiguous FailureFamily.timeout
classify_outcome ExecutionOutcome.failed =
    classification HealthEvidenceClass.ambiguous FailureFamily.infrastructure
classify_outcome ExecutionOutcome.infrastructure_error =
    classification HealthEvidenceClass.ambiguous FailureFamily.infrastructure

unfoldable pub classify_result : ExecutionOutcome → Option FailureDiagnostic → HealthClassification
unfolding classify_failure_code classify_outcome
classify_result ExecutionOutcome.succeeded d =
    classification HealthEvidenceClass.functional FailureFamily.functional
classify_result outcome (some d) = classify_failure_code d.code
classify_result outcome none = classify_outcome outcome

abbrev pub is_functional : HealthEvidenceClass → Bool
is_functional HealthEvidenceClass.functional = true
is_functional _ = false

abbrev pub is_ambiguous : HealthEvidenceClass → Bool
is_ambiguous HealthEvidenceClass.ambiguous = true
is_ambiguous _ = false

abbrev pub is_strong : HealthEvidenceClass → Bool
is_strong HealthEvidenceClass.strong_node_local = true
is_strong _ = false

-- The codes that say the task itself returned a failure.
abbrev pub IsTaskFailure : FailureCode → Type 0
IsTaskFailure c =
    (c ≡ FailureCode.process_exited_non_zero) ⊎ (c ≡ FailureCode.excel_macro_returned_failure)

class_of_code :
    (c : FailureCode)
    → ((classify_failure_code c).class ≡ HealthEvidenceClass.functional) ↔ IsTaskFailure c
unfolding classify_failure_code
class_of_code c = (λ h. ground arith, λ h. ground arith)

family_of_code :
    (c : FailureCode)
    → ((classify_failure_code c).family ≡ FailureFamily.functional) ↔ IsTaskFailure c
unfolding classify_failure_code
family_of_code c = (λ h. ground arith, λ h. ground arith)

-- The attempt succeeded, or its diagnostic says that the task itself returned a failure.
abbrev pub IsFunctional : ExecutionOutcome → Option FailureDiagnostic → Type 0
IsFunctional outcome d =
    (outcome ≡ ExecutionOutcome.succeeded)
    ⊎ ((x : FailureDiagnostic) × (d ≡ some x) × IsTaskFailure x.code)

diagnosed :
    (outcome : ExecutionOutcome) (x : FailureDiagnostic)
    → outcome ≢ ExecutionOutcome.succeeded
    → IsFunctional outcome (some x) ↔ IsTaskFailure x.code
diagnosed outcome x n =
    (λ h. elim h [ inl e ↦ absurd (n e) | inr (y, e, t) ↦ ground arith ], λ t. inr (x, refl, t))

class_iff :
    (outcome : ExecutionOutcome) (d : Option FailureDiagnostic)
    → ((classify_result outcome d).class ≡ HealthEvidenceClass.functional) ↔ IsFunctional outcome d
unfolding classify_result
class_iff ExecutionOutcome.succeeded d = (λ h. inl refl, λ h. refl)
class_iff outcome none = (λ h. cc, λ h. ground arith)
class_iff outcome (some x) =
    let task = diagnosed outcome x (λ e. cc) in
    (λ h. task.1 ((class_of_code x.code).0 h), λ h. (class_of_code x.code).1 (task.0 h))

family_iff :
    (outcome : ExecutionOutcome) (d : Option FailureDiagnostic)
    → ((classify_result outcome d).family ≡ FailureFamily.functional) ↔ IsFunctional outcome d
unfolding classify_result
family_iff ExecutionOutcome.succeeded d = (λ h. inl refl, λ h. refl)
family_iff outcome none = (λ h. cc, λ h. ground arith)
family_iff outcome (some x) =
    let task = diagnosed outcome x (λ e. cc) in
    (λ h. task.1 ((family_of_code x.code).0 h), λ h. (family_of_code x.code).1 (task.0 h))

-- A result speaks for the health of its node (its class is functional, and so is its family)
-- exactly when the attempt succeeded or its diagnostic says that the task itself returned a
-- failure.
pub classify_result-functional :
    (outcome : ExecutionOutcome) (d : Option FailureDiagnostic)
    → (((classify_result outcome d).class ≡ HealthEvidenceClass.functional)
        ↔ IsFunctional outcome d)
      × (((classify_result outcome d).family ≡ FailureFamily.functional) ↔ IsFunctional outcome d)
classify_result-functional outcome d = (class_iff outcome d, family_iff outcome d)
