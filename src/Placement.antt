-- ===== src/Placement.antt =====
-- bins/coordinator/src/state.rs: which connected agent a run is offered to. The map of sessions is
-- a list, and the id of an agent is a number; `std::time::Instant` is a number.
-- The code compares quotients of type `f64`. Division is the parameter `divide`: the bits of the
-- quotient of two numbers, which `total_cmp` compares as numbers where no sign is set.
pub mod Division
mod Order
pub mod Least
pub mod Choice
use task_scheduler.Prelude.{
  ℕ, ◌+◌, ◌-◌, ◌^◌, min, max, Bool, true, false, not, ◌&&◌, ◌||◌, Option, none, some, List, [], ◌∷◌,
  ltb, leb, ◌==◌, if◌then◌else◌, update, keep, any, all,
}
use task_scheduler.Health.Node.Apply.{NodeHealthState, accepts_new_work, capacity_limit}
use task_scheduler.Parameters.Text.{Text, same_text}
use task_scheduler.Parameters.Bindings.{ParameterBinding, environment, secret_file, Bindings}
use task_scheduler.Parameters.Snapshots.{Labels, LateBindingSnapshot, ExecutionSnapshot}

-- A session with its key; the channel `tx` is left out.
pub record AgentSession : Type 0 where
  pub agent_id : ℕ
  pub connection_id : ℕ
  pub enabled : Bool
  pub labels : Labels
  pub capacity : ℕ
  pub applied_settings_revision : ℕ
  pub running : ℕ
  pub health : NodeHealthState
  pub last_assigned : ℕ
  pub environment_bindings : List Text
  pub secret_file_bindings : List Text

abbrev pub session_key : AgentSession → ℕ
session_key s = s.agent_id

abbrev pub contains_name : Text → List Text → Bool
contains_name name names = any (λ n. same_text n name) names

abbrev pub supports_binding : AgentSession → ParameterBinding → Bool
supports_binding session binding = elim binding.source [
  | environment ↦ contains_name binding.name session.environment_bindings
  | secret_file ↦ contains_name binding.name session.secret_file_bindings
]

abbrev pub supports_parameter_bindings : AgentSession → Option LateBindingSnapshot → Bool
supports_parameter_bindings session none = true
supports_parameter_bindings session (some late) =
    all (λ entry. supports_binding session entry.1) late.bindings

-- session.labels.get(key) == Some(value)
abbrev pub has_label : Labels → Text × Text → Bool
has_label [] wanted = false
has_label ((k, v) ∷ labels) wanted =
    if same_text k wanted.0 then same_text v wanted.1 else has_label labels wanted

abbrev pub limited : ℕ → Option ℕ → ℕ
limited capacity none = capacity
limited capacity (some limit) = min capacity limit

abbrev pub effective_capacity : AgentSession → ℕ
effective_capacity s = limited s.capacity (capacity_limit s.health)

unfoldable pub is_eligible : ExecutionSnapshot → List ℕ → AgentSession → Bool
is_eligible snapshot excluded s =
    s.enabled
    && (not (any (λ id. id == s.agent_id) excluded)
        && (accepts_new_work s.health
            && (ltb s.running (effective_capacity s)
                && (all (has_label s.labels) snapshot.required_labels
                    && supports_parameter_bindings s snapshot.late_bindings))))

-- session.running.saturating_add(1)
abbrev pub take_slot : ℕ → AgentSession → AgentSession
take_slot now s = record s { running = min (s.running + 1) (2 ^ 32 - 1); last_assigned = now }

abbrev pub reserve_selected :
    Option AgentSession → ℕ → List AgentSession → Option ℕ × List AgentSession
reserve_selected none now sessions = (none, sessions)
reserve_selected (some s) now sessions =
    (some s.agent_id, update session_key s.agent_id (take_slot now) sessions)

module _ (divide : ℕ → ℕ → ℕ) where
  -- The order of `min_by`: utilisation, then the last assignment, then the id.
  abbrev pub utilisation : AgentSession → ℕ
  utilisation s = divide s.running (max s.capacity 1)

  unfoldable pub precedes : AgentSession → AgentSession → Bool
  precedes a b =
      ltb (utilisation a) (utilisation b)
      || (utilisation a == utilisation b
          && (ltb a.last_assigned b.last_assigned
              || (a.last_assigned == b.last_assigned && leb a.agent_id b.agent_id)))

  -- Iterator::min_by
  abbrev pub better : AgentSession → Option AgentSession → AgentSession
  better s none = s
  better s (some t) = if precedes s t then s else t

  unfoldable pub least : List AgentSession → Option AgentSession
  unfolding precedes
  least [] = none
  least (s ∷ ss) = some (better s (least ss))

  unfoldable pub reserve_agent_avoiding :
      ExecutionSnapshot → List ℕ → ℕ → List AgentSession → Option ℕ × List AgentSession
  unfolding is_eligible least
  reserve_agent_avoiding snapshot excluded now sessions =
      reserve_selected (least (keep (is_eligible snapshot excluded) sessions)) now sessions

  unfoldable pub reserve_agent :
      ExecutionSnapshot → ℕ → List AgentSession → Option ℕ × List AgentSession
  unfolding reserve_agent_avoiding
  reserve_agent snapshot now sessions = reserve_agent_avoiding snapshot [] now sessions

unfoldable pub release_agent_slot : ℕ → List AgentSession → List AgentSession
release_agent_slot agent_id sessions =
    update session_key agent_id (λ s. record s { running = s.running - 1 }) sessions

unfoldable pub update_agent_health : ℕ → NodeHealthState → List AgentSession → List AgentSession
update_agent_health agent_id health sessions =
    update session_key agent_id (λ s. record s { health = health }) sessions
