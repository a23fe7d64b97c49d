-- ===== src/Examples/Registry.antt =====
-- Concrete locks, documents and agents: one agent connects, an editor changes its settings, and the
-- agent acknowledges.
use task_scheduler.Prelude.{
  ◌≤◌, String, ◌≡◌, refl, true, false, ◌&&◌, Option, some, List, [], ◌∷◌, find, matched, ok, is_ok,
  update, update_where,
}
use task_scheduler.Domain.Settings.{NodeSettings, default_node_settings}
use task_scheduler.Registry.Tables.{
  EditLock, SettingsDocument, AgentRow, Registry, AgentRegistration, document_key_of, agent_key,
  node_document, agent_connected, settings_updated,
}
use task_scheduler.Registry.Locks.{acquire_lock, current_lock, renew_lock, release_lock}
use task_scheduler.Registry.Documents.{has_revision, update_settings}
use task_scheduler.Registry.Agents.{
  AgentReport, upsert_agent, new_agent, first_document, first_health,
}
use task_scheduler.Registry.History.{
  Reachable, start, after, registered, updated, desired_follows_document,
}
use task_scheduler.Registry.Progress.{at_once, no_lost_update}
use task_scheduler.Registry.Settling.{
  opens, update_settings_accepts, Settled, settings_applied_settles,
}
use task_scheduler.Registry.Exclusion.{
  LockCall, acquire, renew, release, run, run_specified, holders, run_refines, perform,
}
use task_scheduler.Registry.LockRows.{Keyed}

abbrev no_text : NodeSettings → String
no_text s = "{}"

abbrev no_labels : List (String × String) → String
no_labels s = "{}"

abbrev defaults_of : String → Option NodeSettings
defaults_of text = some default_node_settings

abbrev editor_lock : EditLock
editor_lock = record {
  document_key = 8;
  owner_session = "ann";
  lock_token = 70;
  expires_at = 120010;
}

abbrev fresh_registry : Registry
fresh_registry = record {
  locks = editor_lock ∷ [];
  documents = [];
  agents = [];
  node_health = [];
  audit = [];
}

abbrev worker_report : AgentReport
worker_report = record { id = 7; hostname = "worker"; labels = []; capacity = 4; running = 0 }

abbrev worker_row : AgentRow
worker_row = new_agent worker_report "{}" 1 20

abbrev connected_registry : Registry
connected_registry = record fresh_registry {
  documents = first_document 7 "{}" 20 ∷ [];
  agents = worker_row ∷ [];
  node_health = first_health 7 20 ∷ [];
  audit = agent_connected 7 4 ∷ [];
}

abbrev worker_registration : AgentRegistration
worker_registration = record {
  desired_settings = default_node_settings;
  applied_settings_revision = 0;
}

worker_connects :
    upsert_agent no_text no_labels defaults_of worker_report 20 fresh_registry
    ≡ ok (worker_registration, connected_registry)
unfolding upsert_agent find
worker_connects = refl

abbrev edited_row : AgentRow
edited_row = record worker_row { desired_settings_revision = 2; updated_at = 30 }

abbrev edited_document : SettingsDocument
edited_document = record (first_document 7 "{}" 20) {
  document_json = "{\"max\":5}";
  revision = 2;
  updated_at = 30;
}

abbrev edited_registry : Registry
edited_registry = record connected_registry {
  documents = edited_document ∷ [];
  agents = edited_row ∷ [];
  audit = agent_connected 7 4 ∷ settings_updated 8 2 ∷ [];
}

editor_saves : update_settings 8 1 "{\"max\":5}" 70 30 connected_registry ≡ ok (2, edited_registry)
unfolding update_settings find matched update_where update
editor_saves = refl

abbrev edited_history : Reachable no_text no_labels defaults_of edited_registry
edited_history =
    after
      (after (start fresh_registry refl)
        (registered worker_report 20 worker_registration worker_connects))
      (updated 8 1 "{\"max\":5}" 70 30 2 editor_saves)

edited_worker : find agent_key 7 edited_registry.agents ≡ some edited_row
unfolding find
edited_worker = refl

edited_found :
    find document_key_of (node_document 7) edited_registry.documents ≡ some edited_document
unfolding find
edited_found = refl

desired_follows_document_example :
    (d : SettingsDocument) × (find document_key_of (node_document 7) edited_registry.documents
      ≡ some d)
    × (edited_row.desired_settings_revision ≡ d.revision)
    × (edited_row.applied_settings_revision ≤ d.revision)
desired_follows_document_example =
    desired_follows_document no_text no_labels defaults_of edited_registry 7 edited_row
      edited_history edited_worker

no_lost_update_example :
    ¬ (update_settings 8 1 "{}" 70 40 edited_registry ≡ ok (2, edited_registry))
no_lost_update_example =
    no_lost_update no_text no_labels defaults_of 8 1 "{\"max\":5}" 70 30 2 connected_registry
      edited_registry edited_registry editor_saves (at_once edited_registry) "{}" 70 40 2
      edited_registry

update_settings_accepts_example : is_ok (update_settings 8 1 "{}" 70 30 connected_registry) ≡ (
    opens 70 (current_lock 8 30 connected_registry)
    && matched document_key_of 8 (has_revision 1) connected_registry.documents)
update_settings_accepts_example = update_settings_accepts 8 1 "{}" 70 30 connected_registry

settings_applied_settles_example :
    Settled no_text no_labels defaults_of 7 edited_row default_node_settings 50 edited_registry
settings_applied_settles_example =
    settings_applied_settles no_text no_labels defaults_of edited_registry 7 edited_row
      edited_document default_node_settings 50 edited_history edited_worker edited_found refl

abbrev lock_calls : List LockCall
lock_calls =
    acquire 0 "ann" 1 10
    ∷ acquire 0 "bob" 2 20
    ∷ renew 0 1 100
    ∷ acquire 0 "bob" 3 200000
    ∷ release 0 1 false
    ∷ []

lock_answers : (run lock_calls fresh_registry).0 ≡ true ∷ false ∷ true ∷ true ∷ true ∷ []
unfolding run perform acquire_lock renew_lock release_lock find matched update_where update
lock_answers = refl

fresh-Keyed : Keyed fresh_registry.locks
unfolding find
fresh-Keyed = (refl, tt)

run_refines_example :
    Keyed (run lock_calls fresh_registry).1.locks
    × ((run lock_calls fresh_registry).0 ≡ (run_specified lock_calls (holders fresh_registry)).0)
    × (holders (run lock_calls fresh_registry).1
        ≡ (run_specified lock_calls (holders fresh_registry)).1)
run_refines_example = run_refines lock_calls fresh_registry fresh-Keyed
