-- ===== src/Health/Input/Evaluate.antt =====
-- The strongest family, and the verdict.
use task_scheduler.Prelude.{
  ℕ, max, String, Bool, ◌&&◌, ◌||◌, Option, none, some, List, [], ◌∷◌, leb, ltb, ◌==◌,
  if◌then◌else◌, length,
}
use task_scheduler.Health.Classify.{FailureFamily}
use task_scheduler.Health.Input.Groups.{
  InputHealthObservation, Groups, family_number, last_functional, group,
}

pub data InputHealthState : Type 0 where
  clear suspected confirmed : InputHealthState

pub record InputHealthEvaluation : Type 0 where
  pub state : InputHealthState
  pub family : Option FailureFamily
  pub distinct_healthy_nodes : ℕ

-- The order of the keys `(nodes.len(), family as u8)`: `x` is not above `y`.
abbrev pub not_above : FailureFamily × List String → FailureFamily × List String → Bool
not_above (f, s) (g, t) =
    ltb (length s) (length t) || (length s == length t && leb (family_number f) (family_number g))

-- Iterator::max_by_key: the later of two that are equal.
abbrev pub stronger :
    Option (FailureFamily × List String) → FailureFamily × List String → FailureFamily × List String
stronger none y = y
stronger (some x) y = if not_above x y then y else x

unfoldable pub strongest :
    Option (FailureFamily × List String) → Groups → Option (FailureFamily × List String)
strongest best [] = best
strongest best (y ∷ m) = strongest (some (stronger best y)) m

-- The `match strongest`.
unfoldable pub verdict : ℕ → Option (FailureFamily × List String) → InputHealthEvaluation
verdict threshold none = record {
  state = InputHealthState.clear;
  family = none;
  distinct_healthy_nodes = 0;
}
verdict threshold (some (family, nodes)) = record {
  state =
      if leb threshold (length nodes)
      then InputHealthState.confirmed
      else InputHealthState.suspected;
  family = some family;
  distinct_healthy_nodes = length nodes;
}

unfoldable pub evaluate_input_health : List InputHealthObservation → ℕ → InputHealthEvaluation
unfolding last_functional group strongest verdict
evaluate_input_health observations required_distinct_nodes =
    verdict (max required_distinct_nodes 2)
      (strongest none (group (last_functional none observations) [] observations))
