-- ===== src/Examples/Placement.antt =====
-- Two agents and a run that needs a label.
use task_scheduler.Prelude.{◌≡◌, refl, true, none, some, List, [], ◌∷◌, ◌↔◌, find, update}
use task_scheduler.Domain.AgentId.{codes}
use task_scheduler.Health.Node.Apply.{NodeHealthState}
use task_scheduler.Runs.Tables.{is_some}
use task_scheduler.Parameters.Snapshots.{ExecutionSnapshot}
use task_scheduler.Placement.{
  AgentSession, is_eligible, least, precedes, take_slot, reserve_agent_avoiding,
}
use task_scheduler.Placement.Division.{fixed_point, fixed_point-IsDivision}
use task_scheduler.Placement.Least.{Distinct}
use task_scheduler.Placement.Choice.{SomeEligible, Reserved, reserve_agent_best, reserve_agent_iff}
use task_scheduler.Examples.Parameters.{resolved_runner}

abbrev linux_run : ExecutionSnapshot
linux_run = record resolved_runner { required_labels = (codes "os", codes "linux") ∷ [] }

abbrev busy_agent : AgentSession
busy_agent = record {
  agent_id = 1;
  connection_id = 11;
  enabled = true;
  labels = (codes "os", codes "linux") ∷ [];
  capacity = 4;
  applied_settings_revision = 1;
  running = 3;
  health = NodeHealthState.healthy;
  last_assigned = 5;
  environment_bindings = [];
  secret_file_bindings = [];
}

abbrev idle_agent : AgentSession
idle_agent = record busy_agent {
  agent_id = 2;
  connection_id = 12;
  capacity = 2;
  running = 0;
  health = NodeHealthState.probation;
}

abbrev sessions : List AgentSession
sessions = busy_agent ∷ idle_agent ∷ []

abbrev reserved_sessions : List AgentSession
reserved_sessions = busy_agent ∷ take_slot 9 idle_agent ∷ []

idle_chosen :
    reserve_agent_avoiding fixed_point linux_run [] 9 sessions ≡ (some 2, reserved_sessions)
unfolding reserve_agent_avoiding is_eligible least precedes update
idle_chosen = refl

-- One slot is all that an agent on probation has.
busy_chosen_next : (reserve_agent_avoiding fixed_point linux_run [] 10 reserved_sessions).0 ≡ some 1
unfolding reserve_agent_avoiding is_eligible least precedes update
busy_chosen_next = refl

sessions-Distinct : Distinct sessions
unfolding find
sessions-Distinct = (refl, (refl, tt))

reserve_agent_best_example : Reserved fixed_point linux_run [] 9 2 sessions reserved_sessions
reserve_agent_best_example =
    reserve_agent_best fixed_point linux_run [] 9 sessions 2 reserved_sessions
      fixed_point-IsDivision sessions-Distinct refl idle_chosen

reserve_agent_iff_example :
    ((is_some (reserve_agent_avoiding fixed_point linux_run [] 9 sessions).0 ≡ true)
      ↔ SomeEligible fixed_point linux_run [] 9 sessions)
    × (¬ SomeEligible fixed_point linux_run [] 9 sessions
        → reserve_agent_avoiding fixed_point linux_run [] 9 sessions ≡ (none, sessions))
reserve_agent_iff_example = reserve_agent_iff fixed_point linux_run [] 9 sessions sessions-Distinct
