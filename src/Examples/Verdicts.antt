-- ===== src/Examples/Verdicts.antt =====
-- The theorems on health verdicts, settings and names, at concrete inputs.
use task_scheduler.Prelude.{
  ◌*◌, ◌≤◌, String, ◌≡◌, ◌≢◌, ◌↔◌, refl, Bool, true, false, Option, none, some, List, [], ◌∷◌,
  length, All, ok, arith,
}
use task_scheduler.Domain.{ExecutionOutcome}
use task_scheduler.Domain.{RunState}
use task_scheduler.Domain.States.{parse_state, run_state_as_str, parse_state_iff}
use task_scheduler.Domain.AgentId.{codes, validate_agent_id, IsDelimiter, validate_agent_id_safe}
use task_scheduler.Domain.Settings.{default_global_settings, Url, validate, validate_lease}
use task_scheduler.Health.Classify.{
  FailureFamily, HealthEvidenceClass, classification, classify_result, IsFunctional,
  classify_result-functional,
}
use task_scheduler.Health.NameSet.{insert}
use task_scheduler.Health.Input.Groups.{InputHealthObservation}
use task_scheduler.Health.Input.Evaluate.{InputHealthState, evaluate_input_health}
use task_scheduler.Health.Input.Poison.{IsPoison, confirmed_iff}
use task_scheduler.Health.Node.Evaluate.{
  NodeHealthObservation, NodeHealthDecision, evaluate_node_health, recent, decide, count_distinct,
  name_set, latest, latest_by_input, insert_by_time, sort_by_time,
}
use task_scheduler.Health.Node.Apply.{
  NodeHealthState, accepts_new_work, judge_probation, apply_node_health_evaluation,
}
use task_scheduler.Health.Node.Evidence.{HasThreeFailedInputs, unhealthy_evidence}
use task_scheduler.Health.Node.Placement.{next_state, out_of_service_evidence}
use task_scheduler.Health.Node.Recovery.{HasRecovered, probation_recovery}

classify_result-functional_example :
    (((classify_result ExecutionOutcome.succeeded none).class ≡ HealthEvidenceClass.functional)
      ↔ IsFunctional ExecutionOutcome.succeeded none)
    × (((classify_result ExecutionOutcome.succeeded none).family ≡ FailureFamily.functional)
        ↔ IsFunctional ExecutionOutcome.succeeded none)
classify_result-functional_example = classify_result-functional ExecutionOutcome.succeeded none

parse_state_iff_example :
    (parse_state "running" ≡ some RunState.running)
    ↔ ("running" ≡ run_state_as_str RunState.running)
parse_state_iff_example = parse_state_iff "running" RunState.running

accepted_id : validate_agent_id (codes "node-1") ≡ true
unfolding validate_agent_id
accepted_id = refl

validate_agent_id_safe_example :
    let bytes = codes "node-1" in
    (1 ≤ length bytes)
    × (length bytes ≤ 64)
    × All (λ b. (b ≤ 127) × (¬ IsDelimiter b)) bytes
    × (bytes ≢ b'.' ∷ [])
    × (bytes ≢ b'.' ∷ b'.' ∷ [])
validate_agent_id_safe_example = validate_agent_id_safe (codes "node-1") accepted_id

abbrev any_timezone : String → Bool
any_timezone zone = true

abbrev no_url : String → Option Url
no_url text = none

defaults_pass : validate any_timezone no_url default_global_settings ≡ ok tt
unfolding validate
defaults_pass = refl

validate_lease_example : (10 * 3 ≤ 60) × (15 ≤ 60) × (1 ≤ 3) × (1 ≤ 90)
validate_lease_example =
    validate_lease any_timezone no_url default_global_settings (omega arith) defaults_pass

-- A failure that two healthy nodes saw.
abbrev crash_on : String → InputHealthObservation
crash_on agent_id = record {
  agent_id = agent_id;
  occurred_at = 5;
  classification = classification HealthEvidenceClass.ambiguous FailureFamily.crash;
  node_was_healthy = true;
}

abbrev crashes : List InputHealthObservation
crashes = crash_on "a" ∷ crash_on "b" ∷ []

confirmed_iff_example :
    ((evaluate_input_health crashes 2).state ≡ InputHealthState.confirmed)
    ↔ ((g : FailureFamily) × (nodes : List String) × IsPoison crashes 2 g nodes)
confirmed_iff_example = confirmed_iff crashes 2

abbrev observed : HealthEvidenceClass → FailureFamily → String → String → NodeHealthObservation
observed class family schedule_id input = record {
  schedule_id = schedule_id;
  input_fingerprint = input;
  occurred_at = 1000;
  classification = classification class family;
  retracted = false;
  cluster_suppressed = false;
}

abbrev same_order : List NodeHealthObservation → List NodeHealthObservation
same_order os = os

abbrev failed_node : List NodeHealthObservation
failed_node =
    observed HealthEvidenceClass.strong_node_local FailureFamily.isolation "s" "x"
    ∷ observed HealthEvidenceClass.strong_node_local FailureFamily.isolation "s" "y"
    ∷ observed HealthEvidenceClass.strong_node_local FailureFamily.isolation "t" "z"
    ∷ []

failed_node_verdict :
    (evaluate_node_health same_order failed_node 2000).decision ≡ NodeHealthDecision.auto_quarantine
unfolding evaluate_node_health recent decide count_distinct name_set insert latest latest_by_input
    insert_by_time sort_by_time
failed_node_verdict = refl

failed_node_unhealthy :
    (evaluate_node_health same_order failed_node 2000).decision ≢ NodeHealthDecision.healthy
failed_node_unhealthy e = ground (arith, failed_node_verdict)

unhealthy_evidence_example :
    HasThreeFailedInputs 2000 failed_node
    × ((evaluate_node_health same_order failed_node 2000).considered_observations ≤ 10)
unhealthy_evidence_example =
    unhealthy_evidence same_order (λ p os. refl) failed_node 2000 failed_node_unhealthy

failed_node_leaves :
    accepts_new_work (next_state same_order (λ p os. refl) failed_node 2000 NodeHealthState.suspect)
    ≡ false
unfolding apply_node_health_evaluation evaluate_node_health recent decide count_distinct name_set
    insert latest latest_by_input insert_by_time sort_by_time
failed_node_leaves = refl

out_of_service_evidence_example : HasThreeFailedInputs 2000 failed_node
out_of_service_evidence_example =
    out_of_service_evidence same_order (λ p os. refl) failed_node 2000 NodeHealthState.suspect refl
      failed_node_leaves

abbrev working_node : List NodeHealthObservation
working_node =
    observed HealthEvidenceClass.functional FailureFamily.functional "s" "x"
    ∷ observed HealthEvidenceClass.functional FailureFamily.functional "s" "y"
    ∷ observed HealthEvidenceClass.functional FailureFamily.functional "s" "z"
    ∷ observed HealthEvidenceClass.functional FailureFamily.functional "s" "x"
    ∷ observed HealthEvidenceClass.functional FailureFamily.functional "s" "y"
    ∷ []

probation_recovery_example :
    (next_state same_order (λ p os. refl) working_node 2000 NodeHealthState.probation
      ≡ NodeHealthState.healthy)
    ↔ HasRecovered working_node
probation_recovery_example = probation_recovery same_order (λ p os. refl) working_node 2000

working_node_returns :
    next_state same_order (λ p os. refl) working_node 2000 NodeHealthState.probation
    ≡ NodeHealthState.healthy
unfolding apply_node_health_evaluation judge_probation count_distinct name_set insert
working_node_returns = refl
