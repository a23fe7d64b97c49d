-- ===== src/Health/Input/Groups.antt =====
-- The observations that count against an input, and the table of the nodes that saw each family.
use task_scheduler.Prelude.{
  ℕ, max, String, Bool, false, not, ◌||◌, Option, none, some, List, [], ◌∷◌, leb, ◌==◌,
  if◌then◌else◌,
}
use task_scheduler.Health.Classify.{
  FailureFamily, HealthClassification, is_functional, is_ambiguous,
}
use task_scheduler.Health.NameSet.{insert}

pub record InputHealthObservation : Type 0 where
  pub agent_id : String
  pub occurred_at : ℕ
  pub classification : HealthClassification
  pub node_was_healthy : Bool

-- `family as u8`
unfoldable pub family_number : FailureFamily → ℕ
family_number FailureFamily.functional = 0
family_number FailureFamily.cancellation = 1
family_number FailureFamily.lease = 2
family_number FailureFamily.executor_availability = 3
family_number FailureFamily.binding_availability = 4
family_number FailureFamily.isolation = 5
family_number FailureFamily.process_launch = 6
family_number FailureFamily.crash = 7
family_number FailureFamily.timeout = 8
family_number FailureFamily.excel_host = 9
family_number FailureFamily.excel_invocation = 10
family_number FailureFamily.excel_contract = 11
family_number FailureFamily.cleanup = 12
family_number FailureFamily.infrastructure = 13

-- Derived `==` on families.
abbrev pub family_eq : FailureFamily → FailureFamily → Bool
family_eq f g = family_number f == family_number g

-- Iterator::max on times
abbrev pub later_of : Option ℕ → ℕ → Option ℕ
later_of none t = some t
later_of (some s) t = some (max s t)

-- The time of the last functional observation.
unfoldable pub last_functional : Option ℕ → List InputHealthObservation → Option ℕ
last_functional latest [] = latest
last_functional latest (o ∷ os) =
    last_functional
      (if is_functional o.classification.class then later_of latest o.occurred_at else latest) os

-- last_functional.is_some_and(|success| occurred_at <= success)
abbrev pub before_success : Option ℕ → ℕ → Bool
before_success none t = false
before_success (some success) t = leb t success

-- The observation is not skipped by the loop.
abbrev pub counts : Option ℕ → InputHealthObservation → Bool
counts success o = not (
    before_success success o.occurred_at
    || (not o.node_was_healthy || not (is_ambiguous o.classification.class)))

-- `HashMap<FailureFamily, HashSet<&str>>`
abbrev pub Groups : Type 0
Groups = List (FailureFamily × List String)

-- by_family.entry(family).or_default().insert(agent)
unfoldable pub add_node : FailureFamily → String → Groups → Groups
unfolding insert
add_node f a [] = (f, insert a []) ∷ []
add_node f a ((g, s) ∷ m) = if family_eq g f then (g, insert a s) ∷ m else (g, s) ∷ add_node f a m

-- The loop over the observations.
unfoldable pub group : Option ℕ → Groups → List InputHealthObservation → Groups
unfolding add_node
group success m [] = m
group success m (o ∷ os) =
    group success (if counts success o then add_node o.classification.family o.agent_id m else m) os
