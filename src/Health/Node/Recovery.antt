-- ===== src/Health/Node/Recovery.antt =====
-- When `apply_node_health_evaluation` of health.rs ends the probation of a node.
use task_scheduler.Prelude.{
  ℕ, ◌≤◌, String, ◌≡◌, ◌↔◌, refl, sym, ◌∙◌, Bool, true, false, ◌&&◌, ◌||◌, not, List, [], ◌∷◌, map,
  arith, length, keep, any, All, total, one_if, str_eq, Bool-cases, inl, inr,
}
use task_scheduler.Health.Classify.{is_functional}
use task_scheduler.Health.NameSet.{contains, Distinct, Distinct-length}
use task_scheduler.Health.Node.Evaluate.{
  NodeHealthObservation, is_failure, count_distinct, input_of, name_set,
}
use task_scheduler.Health.Node.Apply.{
  NodeHealthState, not_discarded, is_functional_observation, judge_probation,
  apply_node_health_evaluation,
}
use task_scheduler.Health.Node.Somewhere.{any-keep}
use task_scheduler.Health.Node.Evidence.{name_set-Distinct, contains-name_set, contains-map}
use task_scheduler.Health.Node.Placement.{next_state}

-- A functional observation that stands.
abbrev pub works : NodeHealthObservation → Bool
works o = (not o.retracted && not o.cluster_suppressed) && is_functional o.classification.class

-- … on input `a`.
abbrev pub works_on : String → NodeHealthObservation → Bool
works_on a o = works o && str_eq o.input_fingerprint a

-- Each failure was retracted or attributed to the cluster, and there are five standing functional
-- observations, of three different inputs at least.
pub record HasRecovered (os : List NodeHealthObservation) : Type 0 where
  pub inputs : List String
  pub distinct : Distinct inputs
  pub three : 3 ≤ length inputs
  pub on_each : (a : String) → contains a inputs ≡ true → any (works_on a) os ≡ true
  pub five : 5 ≤ total (λ o. one_if (works o)) os
  pub excused : All (λ o. is_failure o ≡ true → (o.retracted || o.cluster_suppressed) ≡ true) os

-- The observations that the branch for probation counts.
abbrev good_work : List NodeHealthObservation → List NodeHealthObservation
good_work os = keep is_functional_observation (keep not_discarded os)

length-good_work :
    (os : List NodeHealthObservation) → length (good_work os) ≡ total (λ o. one_if (works o)) os
unfolding total
length-good_work [] = refl
length-good_work (o ∷ os) = ground (arith, length-good_work os)

any_same :
    (p q : NodeHealthObservation → Bool) (os : List NodeHealthObservation)
    → ((o : NodeHealthObservation) → p o ≡ q o)
    → any p os ≡ any q os
any_same p q [] e = refl
any_same p q (o ∷ os) e = rw (e o, any_same p q os e)

inputs_of_good_work :
    (a : String) (os : List NodeHealthObservation)
    → contains a (name_set (map input_of (good_work os))) ≡ any (works_on a) os
inputs_of_good_work a os =
    contains-name_set a (map input_of (good_work os))
    ∙ contains-map a input_of (good_work os)
    ∙ any-keep (λ o. str_eq o.input_fingerprint a) is_functional_observation (keep not_discarded os)
    ∙ any-keep (λ o. is_functional_observation o && str_eq o.input_fingerprint a) not_discarded os
    ∙ any_same _ (works_on a) os (λ o. ground arith)

no_failure→excused :
    (os : List NodeHealthObservation)
    → any is_failure (keep not_discarded os) ≡ false
    → All (λ o. is_failure o ≡ true → (o.retracted || o.cluster_suppressed) ≡ true) os
no_failure→excused [] h = tt
no_failure→excused (o ∷ os) h =
    (λ f. ground (arith, h, f), no_failure→excused os (ground (arith, h)))

excused→no_failure :
    (os : List NodeHealthObservation)
    → All (λ o. is_failure o ≡ true → (o.retracted || o.cluster_suppressed) ≡ true) os
    → any is_failure (keep not_discarded os) ≡ false
excused→no_failure [] h = refl
excused→no_failure (o ∷ os) (first, h) = elim (Bool-cases (is_failure o)) [
  | inl f ↦ ground (arith, f, first f, excused→no_failure os h)
  | inr n ↦ ground (arith, n, excused→no_failure os h)
]

judge_probation-healthy :
    (usable : List NodeHealthObservation)
    → judge_probation usable ≡ NodeHealthState.healthy
    → (any is_failure usable ≡ false)
      × (5 ≤ length (keep is_functional_observation usable))
      × (3 ≤ count_distinct input_of (keep is_functional_observation usable))
unfolding judge_probation
judge_probation-healthy usable h = ground arith

judged_healthy :
    (usable : List NodeHealthObservation)
    → any is_failure usable ≡ false
    → 5 ≤ length (keep is_functional_observation usable)
    → 3 ≤ count_distinct input_of (keep is_functional_observation usable)
    → judge_probation usable ≡ NodeHealthState.healthy
unfolding judge_probation
judged_healthy usable none five three = ground (arith, none)

recovered :
    (os : List NodeHealthObservation)
    → judge_probation (keep not_discarded os) ≡ NodeHealthState.healthy
    → HasRecovered os
unfolding count_distinct
recovered os h =
    let (clean, five, three) = judge_probation-healthy (keep not_discarded os) h in
    let counted = length-good_work os in
    record {
      inputs = name_set (map input_of (good_work os));
      distinct = name_set-Distinct (map input_of (good_work os));
      three = three;
      on_each = λ a m. sym (inputs_of_good_work a os) ∙ m;
      five = omega arith;
      excused = no_failure→excused os clean;
    }

released :
    (os : List NodeHealthObservation)
    → HasRecovered os
    → judge_probation (keep not_discarded os) ≡ NodeHealthState.healthy
unfolding count_distinct
released os r =
    let names = name_set (map input_of (good_work os)) in
    let counted = length-good_work os in
    let five = r.five in
    let three = r.three in
    let at_least =
      Distinct-length r.inputs names r.distinct (λ a m. inputs_of_good_work a os ∙ r.on_each a m) in
    judged_healthy (keep not_discarded os) (excused→no_failure os r.excused) (omega arith)
      (omega arith)

module _ (arrange : List NodeHealthObservation → List NodeHealthObservation)
    (arrange_members : (p : NodeHealthObservation → Bool) (os : List NodeHealthObservation)
      → any p (arrange os) ≡ any p os)
    (observations : List NodeHealthObservation) (now : ℕ) where
  -- Scoring ends the probation of a node exactly when each failure on it was retracted or attributed
  -- to the cluster, and five functional observations that were neither are there, of three different
  -- inputs at least.
  pub probation_recovery :
      (next_state arrange arrange_members observations now NodeHealthState.probation
        ≡ NodeHealthState.healthy)
      ↔ HasRecovered observations
  unfolding apply_node_health_evaluation
  probation_recovery = (recovered observations, released observations)
