-- ===== src/Health/Node/Evidence.antt =====
-- What a verdict against a node rests on.
use mathlib.Core.List.{reverse}
use task_scheduler.Prelude.{
  ℕ, ◌≤◌, ◌+◌, String, ◌≡◌, ◌≢◌, refl, sym, ◌∙◌, Bool, true, ◌&&◌, not, leb, List, [], ◌∷◌, map,
  arith, length, keep, str_eq, any, Bool-cases, inl, inr,
}
use task_scheduler.Health.NameSet.{
  contains, Distinct, insert-Distinct, contains-insert, Distinct-length,
}
use task_scheduler.Health.Node.Evaluate.{
  NodeHealthObservation, NodeHealthDecision, is_failure, is_usable, latest_by_input, sort_by_time,
  name_set, count_distinct, input_of, is_strong_since, decide, recent, evaluate_node_health,
}
use task_scheduler.Prelude.{length-take}
use task_scheduler.Health.Node.Somewhere.{
  any-keep, any-take, any-reverse, any-sort_by_time, any-latest_by_input,
}

-- The set of a field's values.
pub name_set-Distinct : (s : List String) → Distinct (name_set s)
unfolding name_set
name_set-Distinct [] = tt
name_set-Distinct (a ∷ s) = insert-Distinct a (name_set s) (name_set-Distinct s)

pub contains-name_set : (a : String) (s : List String) → contains a (name_set s) ≡ contains a s
unfolding name_set
contains-name_set a [] = refl
contains-name_set a (b ∷ s) = rw (contains-insert b a (name_set s), contains-name_set a s)

pub contains-map :
    (a : String) (field : NodeHealthObservation → String) (os : List NodeHealthObservation)
    → contains a (map field os) ≡ any (λ o. str_eq (field o) a) os
contains-map a field [] = refl
contains-map a field (o ∷ os) = rw (contains-map a field os)

contains-keep :
    (a : String) (field : NodeHealthObservation → String) (p : NodeHealthObservation → Bool)
    (os : List NodeHealthObservation)
    → contains a (map field (keep p os)) ≡ true
    → contains a (map field os) ≡ true
contains-keep a field p [] h = h
contains-keep a field p (o ∷ os) h = ground (arith, contains-keep a field p os)

pub count_distinct-keep :
    (field : NodeHealthObservation → String) (p : NodeHealthObservation → Bool)
    (os : List NodeHealthObservation)
    → count_distinct field (keep p os) ≤ count_distinct field os
unfolding count_distinct
count_distinct-keep field p os =
    Distinct-length (name_set (map field (keep p os))) (name_set (map field os))
      (name_set-Distinct (map field (keep p os)))
      (λ a h.
        contains-name_set a (map field os)
        ∙ contains-keep a field p os (sym (contains-name_set a (map field (keep p os))) ∙ h))

-- A decision against the node counts three inputs at least, on every branch.
pub decide-three_inputs :
    (now considered : ℕ) (failures : List NodeHealthObservation)
    → decide now considered failures ≢ NodeHealthDecision.healthy
    → 3 ≤ count_distinct input_of failures
unfolding decide
decide-three_inputs now considered failures h =
    ground (arith, count_distinct-keep input_of (is_strong_since now) failures)

-- A failure on input `a` within the last fifteen minutes, neither retracted nor attributed to the
-- cluster.
abbrev pub failed_on : ℕ → String → NodeHealthObservation → Bool
failed_on now a o =
    leb now (o.occurred_at + 900000)
    && (not o.retracted
        && (not o.cluster_suppressed && (is_failure o && str_eq o.input_fingerprint a)))

-- At least three different inputs failed on the node within fifteen minutes, each with an
-- observation that is neither retracted nor attributed to the cluster.
pub record HasThreeFailedInputs (now : ℕ) (os : List NodeHealthObservation) : Type 0 where
  pub inputs : List String
  pub distinct : Distinct inputs
  pub three : 3 ≤ length inputs
  pub failed : (a : String) → contains a inputs ≡ true → any (failed_on now a) os ≡ true

any_mono :
    (p q : NodeHealthObservation → Bool) (os : List NodeHealthObservation)
    → ((o : NodeHealthObservation) → p o ≡ true → q o ≡ true)
    → any p os ≡ true
    → any q os ≡ true
any_mono p q [] h e = e
any_mono p q (o ∷ os) h e = elim (Bool-cases (p o)) [
  | inl t ↦ rw (h o t)
  | inr f ↦ ground (arith, any_mono p q os h (ground arith))
]

module _ (arrange : List NodeHealthObservation → List NodeHealthObservation)
    (arrange_members : (p : NodeHealthObservation → Bool) (os : List NodeHealthObservation)
      → any p (arrange os) ≡ any p os)
    (observations : List NodeHealthObservation) (now : ℕ) where
  any-recent :
      (q : NodeHealthObservation → Bool)
      → any q (recent arrange observations now) ≡ true
      → any (λ o. is_usable now o && q o) observations ≡ true
  unfolding recent
  any-recent q h =
      let kept = keep (is_usable now) observations in
      let table = latest_by_input [] kept in
      let sorted = sort_by_time (arrange table) in
      let in_table =
        sym (arrange_members q table)
        ∙ sym (any-sort_by_time q (arrange table))
        ∙ sym (any-reverse q sorted)
        ∙ any-take q 10 (reverse sorted) h in
      sym (any-keep q (is_usable now) observations) ∙ any-latest_by_input q [] kept in_table

  considered_at_most_ten : length (recent arrange observations now) ≤ 10
  unfolding recent
  considered_at_most_ten = length-take 10 _

  failures-failed_on :
      (a : String)
      → contains a (name_set (map input_of (keep is_failure (recent arrange observations now))))
        ≡ true
      → any (failed_on now a) observations ≡ true
  failures-failed_on a h =
      let considered = recent arrange observations now in
      let values = map input_of (keep is_failure considered) in
      any_mono (λ o. is_usable now o && (is_failure o && str_eq o.input_fingerprint a))
        (failed_on now a) observations (λ o t. ground (arith, t))
        (any-recent (λ o. is_failure o && str_eq o.input_fingerprint a)
          (sym (any-keep (λ o. str_eq o.input_fingerprint a) is_failure considered)
            ∙ sym (contains-map a input_of (keep is_failure considered))
            ∙ sym (contains-name_set a values)
            ∙ h))

  -- The score goes against a node only when at least three different inputs failed on it within
  -- fifteen minutes, counting no observation that is retracted or attributed to the cluster; and it
  -- considers ten observations at most. So one bad input cannot turn the score against a node.
  pub unhealthy_evidence :
      (evaluate_node_health arrange observations now).decision ≢ NodeHealthDecision.healthy
      → HasThreeFailedInputs now observations
        × ((evaluate_node_health arrange observations now).considered_observations ≤ 10)
  unfolding evaluate_node_health count_distinct
  unhealthy_evidence h =
      let failures = keep is_failure (recent arrange observations now) in
      (
        record {
          inputs = name_set (map input_of failures);
          distinct = name_set-Distinct (map input_of failures);
          three = decide-three_inputs now _ failures h;
          failed = failures-failed_on;
        },
        considered_at_most_ten,
      )
