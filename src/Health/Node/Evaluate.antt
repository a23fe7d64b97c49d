-- ===== src/Health/Node/Evaluate.antt =====
-- The score of a node over the last fifteen minutes. The order in which a `HashMap` hands out its
-- values is no part of its contract: `arrange` is that order.
-- `failure_rate` is the fraction `failed / considered`, of at most ten observations. The code
-- compares its `f64` with 0.60 and 0.50; for such fractions this agrees with the comparison of the
-- products below, as rounding is monotone and 6 / 10 rounds to the literal 0.60.
use task_scheduler.Prelude.{
  ℕ, ◌+◌, ◌*◌, String, Bool, not, ◌&&◌, ◌||◌, List, [], ◌∷◌, map, leb, ltb, if◌then◌else◌, length,
  take, keep, str_eq,
}
use mathlib.Core.List.{reverse}
use task_scheduler.Health.Classify.{HealthClassification, is_functional, is_ambiguous, is_strong}
use task_scheduler.Health.NameSet.{insert}

pub record NodeHealthObservation : Type 0 where
  pub schedule_id : String
  pub input_fingerprint : String
  pub occurred_at : ℕ
  pub classification : HealthClassification
  pub retracted : Bool
  pub cluster_suppressed : Bool

pub data NodeHealthDecision : Type 0 where
  healthy suspect auto_quarantine : NodeHealthDecision

pub record NodeHealthEvaluation : Type 0 where
  pub decision : NodeHealthDecision
  pub distinct_failed_inputs : ℕ
  pub distinct_schedules : ℕ
  pub considered_observations : ℕ
  pub failed_observations : ℕ

abbrev pub minutes : ℕ → ℕ
minutes n = n * 60000

-- The class is Ambiguous or StrongNodeLocal.
abbrev pub is_failure : NodeHealthObservation → Bool
is_failure o = is_ambiguous o.classification.class || is_strong o.classification.class

-- The filter of the loop; `cutoff <= occurred_at` is written without a subtraction.
abbrev pub is_usable : ℕ → NodeHealthObservation → Bool
is_usable now o =
    leb now (o.occurred_at + minutes 15)
    && (not o.retracted
        && (not o.cluster_suppressed && (is_functional o.classification.class || is_failure o)))

-- latest_by_input.entry(fingerprint).and_modify(…).or_insert(observation)
unfoldable pub latest :
    NodeHealthObservation → List NodeHealthObservation → List NodeHealthObservation
latest o [] = o ∷ []
latest o (c ∷ m) =
    if str_eq c.input_fingerprint o.input_fingerprint
    then (if ltb c.occurred_at o.occurred_at then o else c) ∷ m
    else c ∷ latest o m

unfoldable pub latest_by_input :
    List NodeHealthObservation → List NodeHealthObservation → List NodeHealthObservation
unfolding latest
latest_by_input m [] = m
latest_by_input m (o ∷ os) = latest_by_input (latest o m) os

-- A stable `sort_by_key`: equal times keep their order.
unfoldable pub insert_by_time :
    NodeHealthObservation → List NodeHealthObservation → List NodeHealthObservation
insert_by_time o [] = o ∷ []
insert_by_time o (c ∷ os) =
    if leb o.occurred_at c.occurred_at then o ∷ c ∷ os else c ∷ insert_by_time o os

unfoldable pub sort_by_time : List NodeHealthObservation → List NodeHealthObservation
unfolding insert_by_time
sort_by_time [] = []
sort_by_time (o ∷ os) = insert_by_time o (sort_by_time os)

-- collect::<HashSet<_>>()
unfoldable pub name_set : List String → List String
unfolding insert
name_set [] = []
name_set (a ∷ s) = insert a (name_set s)

-- The number of different values of a field: map, collect into a `HashSet`, `len`.
unfoldable pub count_distinct : (NodeHealthObservation → String) → List NodeHealthObservation → ℕ
unfolding name_set
count_distinct field os = length (name_set (map field os))

abbrev pub input_of : NodeHealthObservation → String
input_of o = o.input_fingerprint

abbrev pub schedule_of : NodeHealthObservation → String
schedule_of o = o.schedule_id

-- occurred_at >= strong_since and StrongNodeLocal
abbrev pub is_strong_since : ℕ → NodeHealthObservation → Bool
is_strong_since now o = leb now (o.occurred_at + minutes 5) && is_strong o.classification.class

-- From the failures among the recent observations to the decision.
unfoldable pub decide : ℕ → ℕ → List NodeHealthObservation → NodeHealthDecision
unfolding count_distinct
decide now considered failures =
    let failed = length failures in
    let distinct_inputs = count_distinct input_of failures in
    let distinct_schedules = count_distinct schedule_of failures in
    let strong = keep (is_strong_since now) failures in
    let normal_quarantine =
      leb 5 failed
      && (leb (if leb 2 distinct_schedules then 4 else 6) distinct_inputs
          && leb (considered * 3) (failed * 5)) in
    let fast_quarantine =
      leb 3 (count_distinct input_of strong) && leb 2 (count_distinct schedule_of strong) in
    if normal_quarantine || fast_quarantine
    then NodeHealthDecision.auto_quarantine
    else if leb 3 failed && (leb 3 distinct_inputs && leb considered (failed * 2))
    then NodeHealthDecision.suspect
    else NodeHealthDecision.healthy

module _ (arrange : List NodeHealthObservation → List NodeHealthObservation) where
  -- The ten latest of the observations that count, one for each input.
  unfoldable pub recent : List NodeHealthObservation → ℕ → List NodeHealthObservation
  unfolding latest_by_input sort_by_time
  recent observations now =
      take 10
        (reverse (sort_by_time (arrange (latest_by_input [] (keep (is_usable now) observations)))))

  unfoldable pub evaluate_node_health : List NodeHealthObservation → ℕ → NodeHealthEvaluation
  unfolding recent decide
  evaluate_node_health observations now =
      let considered = recent observations now in
      let failures = keep is_failure considered in
      record {
        decision = decide now (length considered) failures;
        distinct_failed_inputs = count_distinct input_of failures;
        distinct_schedules = count_distinct schedule_of failures;
        considered_observations = length considered;
        failed_observations = length failures;
      }
