-- ===== src/Health/Node/Apply.antt =====
-- The placement state of a node, and what automatic scoring does to it.
use task_scheduler.Prelude.{
  ℕ, Bool, true, false, not, ◌&&◌, Option, none, some, List, leb, if◌then◌else◌, length, keep, any,
}
use task_scheduler.Health.Classify.{is_functional}
use task_scheduler.Health.Node.Evaluate.{
  NodeHealthObservation, NodeHealthDecision, NodeHealthEvaluation, is_failure, count_distinct,
  input_of,
}

pub data NodeHealthState : Type 0 where
  healthy suspect auto_quarantined manual_quarantined probation : NodeHealthState

abbrev pub accepts_new_work : NodeHealthState → Bool
accepts_new_work NodeHealthState.healthy = true
accepts_new_work NodeHealthState.suspect = true
accepts_new_work NodeHealthState.probation = true
accepts_new_work _ = false

abbrev pub capacity_limit : NodeHealthState → Option ℕ
capacity_limit NodeHealthState.probation = some 1
capacity_limit _ = none

abbrev pub not_discarded : NodeHealthObservation → Bool
not_discarded o = not o.retracted && not o.cluster_suppressed

abbrev pub is_functional_observation : NodeHealthObservation → Bool
is_functional_observation o = is_functional o.classification.class

-- The branch for a node on probation.
unfoldable pub judge_probation : List NodeHealthObservation → NodeHealthState
judge_probation usable =
    let functional = keep is_functional_observation usable in
    if any is_failure usable
    then NodeHealthState.auto_quarantined
    else if leb 5 (length functional) && leb 3 (count_distinct input_of functional)
    then NodeHealthState.healthy
    else NodeHealthState.probation

abbrev pub state_of_decision : NodeHealthDecision → NodeHealthState
state_of_decision NodeHealthDecision.healthy = NodeHealthState.healthy
state_of_decision NodeHealthDecision.suspect = NodeHealthState.suspect
state_of_decision NodeHealthDecision.auto_quarantine = NodeHealthState.auto_quarantined

unfoldable pub apply_node_health_evaluation :
    NodeHealthState → NodeHealthEvaluation → List NodeHealthObservation → NodeHealthState
unfolding judge_probation
apply_node_health_evaluation NodeHealthState.manual_quarantined evaluation observations =
    NodeHealthState.manual_quarantined
apply_node_health_evaluation NodeHealthState.auto_quarantined evaluation observations =
    NodeHealthState.auto_quarantined
apply_node_health_evaluation NodeHealthState.probation evaluation observations =
    judge_probation (keep not_discarded observations)
apply_node_health_evaluation _ evaluation observations = state_of_decision evaluation.decision
