-- ===== src/Health/Node/Placement.antt =====
-- What one round of automatic scoring may do to the placement state of a node.
use task_scheduler.Prelude.{ℕ, ◌≡◌, refl, Bool, true, false, ◌&&◌, List, arith, keep, any}
use task_scheduler.Health.Node.Evaluate.{NodeHealthObservation, is_failure, evaluate_node_health}
use task_scheduler.Health.Node.Apply.{
  NodeHealthState, accepts_new_work, not_discarded, judge_probation, apply_node_health_evaluation,
}
use task_scheduler.Health.Node.Somewhere.{any-keep}
use task_scheduler.Health.Node.Evidence.{HasThreeFailedInputs, unhealthy_evidence}

-- A failure that is neither retracted nor attributed to the cluster.
abbrev pub standing_failure : NodeHealthObservation → Bool
standing_failure o = not_discarded o && is_failure o

judged_auto :
    (os : List NodeHealthObservation)
    → judge_probation (keep not_discarded os) ≡ NodeHealthState.auto_quarantined
    → any standing_failure os ≡ true
unfolding judge_probation
judged_auto os h = ground (arith, any-keep is_failure not_discarded os)

judged_never_manual :
    (usable : List NodeHealthObservation)
    → accepts_new_work (judge_probation usable) ≡ false
    → judge_probation usable ≡ NodeHealthState.auto_quarantined
unfolding judge_probation
judged_never_manual usable h = ground arith

module _ (arrange : List NodeHealthObservation → List NodeHealthObservation)
    (arrange_members : (p : NodeHealthObservation → Bool) (os : List NodeHealthObservation)
      → any p (arrange os) ≡ any p os)
    (observations : List NodeHealthObservation) (now : ℕ) where
  abbrev pub next_state : NodeHealthState → NodeHealthState
  next_state s =
      apply_node_health_evaluation s (evaluate_node_health arrange observations now) observations

  -- The evidence on which scoring may take a node in state `s` out of service.
  abbrev pub Incriminating : NodeHealthState → Type 0
  Incriminating NodeHealthState.probation = any standing_failure observations ≡ true
  Incriminating _ = HasThreeFailedInputs now observations

  -- What scoring does from each state.
  scoring_transition :
      (s : NodeHealthState)
      → (accepts_new_work s ≡ false → next_state s ≡ s)
        × (accepts_new_work s ≡ true → accepts_new_work (next_state s) ≡ false → Incriminating s)
  unfolding apply_node_health_evaluation
  scoring_transition NodeHealthState.manual_quarantined = (λ _. refl, λ e. cc)
  scoring_transition NodeHealthState.auto_quarantined = (λ _. refl, λ e. cc)
  scoring_transition NodeHealthState.probation = (
    λ e. cc,
    λ _ h. judged_auto observations (judged_never_manual (keep not_discarded observations) h),
  )
  scoring_transition NodeHealthState.healthy = (
    λ e. cc,
    λ _ h. (unhealthy_evidence arrange arrange_members observations now (λ e. ground arith)).0,
  )
  scoring_transition NodeHealthState.suspect = (
    λ e. cc,
    λ _ h. (unhealthy_evidence arrange arrange_members observations now (λ e. ground arith)).0,
  )

  -- Scoring never changes a node that takes no new work, so it releases no quarantine.
  pub quarantine_holds : (s : NodeHealthState) → accepts_new_work s ≡ false → next_state s ≡ s
  quarantine_holds s h = (scoring_transition s).0 h

  -- Scoring takes a node out of service only on three failed inputs or, on probation, on a failure that
  -- is neither retracted nor attributed to the cluster.
  pub out_of_service_evidence :
      (s : NodeHealthState)
      → accepts_new_work s ≡ true
      → accepts_new_work (next_state s) ≡ false
      → Incriminating s
  out_of_service_evidence s h k = (scoring_transition s).1 h k
