-- ===== src/Registry/Agents.antt =====
-- `upsert_agent`, `disconnect_agent` and `ack_applied` of
-- crates/scheduler-store/src/lib.rs. JSON texts are written and read by serde_json: `print_settings`,
-- `print_labels` and `parse_settings`.
use task_scheduler.Prelude.{
  ℕ, String, Bool, true, false, ◌&&◌, Option, none, some, List, [], ◌∷◌, ◌++◌, leb, ltb, ◌==◌,
  if◌then◌else◌, find, update, update_where, matched, Result, ok, ◌>>=◌, or_fail,
}
use task_scheduler.Domain.Settings.{NodeSettings, default_node_settings}
use task_scheduler.Health.Node.Apply.{NodeHealthState}
use task_scheduler.Registry.Tables.{
  SettingsDocument, AgentRow, NodeHealthRow, Registry, RegistryError, RegistryEvent,
  unreadable_document, document_not_found, agent_not_found, AgentRegistration, SettingsAckStatus,
  SettingsAckOutcome, ack_applied, ack_ignored, ack_rejected, agent_connected, agent_disconnected,
  document_key_of, agent_key, health_key, node_document, append_event,
}

-- INSERT OR IGNORE: a row with the key stays as it is
abbrev pub insert_missing : {A : Type 0} → Option A → A → List A → List A
insert_missing none row rows = rows ++ row ∷ []
insert_missing (some _) row rows = rows

abbrev pub first_document : ℕ → String → ℕ → SettingsDocument
first_document agent json now = record {
  document_key = node_document agent;
  document_json = json;
  revision = 1;
  updated_at = now;
}

-- What a connecting agent reports.
pub record AgentReport : Type 0 where
  pub id : ℕ
  pub hostname : String
  pub labels : List (String × String)
  pub capacity : ℕ
  pub running : ℕ

abbrev pub new_agent : AgentReport → String → ℕ → ℕ → AgentRow
new_agent report labels_json revision now = record {
  id = report.id;
  hostname = report.hostname;
  labels_json = labels_json;
  capacity = report.capacity;
  running = report.running;
  connected = true;
  desired_settings_revision = revision;
  applied_settings_revision = 0;
  settings_error = none;
  last_seen_at = now;
  created_at = now;
  updated_at = now;
}

-- ON CONFLICT(id) DO UPDATE SET …
abbrev pub reconnect : AgentReport → String → ℕ → AgentRow → AgentRow
reconnect report labels_json now a = record a {
  hostname = report.hostname;
  labels_json = labels_json;
  capacity = report.capacity;
  running = report.running;
  connected = true;
  last_seen_at = now;
  updated_at = now;
}

abbrev pub upsert_row :
    Option AgentRow → AgentReport → String → ℕ → ℕ → List AgentRow → List AgentRow
upsert_row none report labels_json revision now agents =
    agents ++ new_agent report labels_json revision now ∷ []
upsert_row (some _) report labels_json revision now agents =
    update agent_key report.id (reconnect report labels_json now) agents

abbrev pub first_health : ℕ → ℕ → NodeHealthRow
first_health agent now = record {
  agent_id = agent;
  state = NodeHealthState.healthy;
  transitioned_at = now;
  updated_at = now;
}

unfoldable pub disconnect_agent : ℕ → ℕ → Registry → Registry
disconnect_agent agent now s = append_event (agent_disconnected agent) (record s {
  agents = update agent_key agent (λ a. record a { connected = false; updated_at = now }) s.agents;
})

-- The WHERE clause of an acknowledgement, for a rejection and for a success.
abbrev pub accepts_ack : ℕ → Option String → AgentRow → Bool
accepts_ack revision (some _) a =
    a.desired_settings_revision == revision && ltb a.applied_settings_revision revision
accepts_ack revision none a =
    a.desired_settings_revision == revision && leb a.applied_settings_revision revision

abbrev pub take_ack : ℕ → Option String → ℕ → AgentRow → AgentRow
take_ack revision (some error) now a = record a { settings_error = some error; updated_at = now }
take_ack revision none now a = record a {
  applied_settings_revision = revision;
  settings_error = none;
  updated_at = now;
}

-- The outcome without the settings, and the audit event.
abbrev pub ack_status : Bool → Option String → SettingsAckStatus
ack_status false error = SettingsAckStatus.ignored
ack_status true (some _) = SettingsAckStatus.rejected
ack_status true none = SettingsAckStatus.applied

-- SELECT … WHERE document_key=? AND revision=?
abbrev pub select_revision : ℕ → Option SettingsDocument → Option SettingsDocument
select_revision revision none = none
select_revision revision (some d) = if d.revision == revision then some d else none

abbrev pub is_at_revision : ℕ → AgentRow → Bool
is_at_revision revision a =
    a.desired_settings_revision == revision && a.applied_settings_revision == revision

abbrev pub adopt : String → ℕ → AgentRow → AgentRow
adopt labels_json capacity a = record a { labels_json = labels_json; capacity = capacity }

abbrev pub ack_event : SettingsAckStatus → ℕ → ℕ → RegistryEvent
ack_event SettingsAckStatus.applied agent revision = ack_applied agent revision
ack_event SettingsAckStatus.rejected agent revision = ack_rejected agent revision
ack_event SettingsAckStatus.ignored agent revision = ack_ignored agent revision

module _ (print_settings : NodeSettings → String) (print_labels : List (String × String) → String)
    (parse_settings : String → Option NodeSettings) where
  unfoldable pub upsert_agent :
      AgentReport → ℕ → Registry → Result RegistryError (AgentRegistration × Registry)
  upsert_agent report now s = do
    let reported = record default_node_settings {
      labels = report.labels;
      max_parallel = report.capacity;
    }
    let documents =
        insert_missing (find document_key_of (node_document report.id) s.documents)
          (first_document report.id (print_settings reported) now) s.documents
    row ← or_fail (find document_key_of (node_document report.id) documents) document_not_found
    settings ← or_fail (parse_settings row.document_json) unreadable_document
    let agents =
        upsert_row (find agent_key report.id s.agents) report (print_labels report.labels)
          row.revision now s.agents
    agent ← or_fail (find agent_key report.id agents) agent_not_found
    ok (
      record {
        desired_settings = record settings { revision = row.revision };
        applied_settings_revision = agent.applied_settings_revision;
      },
      append_event (agent_connected report.id report.capacity) (record s {
        documents = documents;
        agents = agents;
        node_health =
            insert_missing (find health_key report.id s.node_health) (first_health report.id now)
              s.node_health;
      }),
    )

  -- The branch of an applied revision: the settings, and the agent's row with their values.
  unfoldable pub adopt_settings :
      SettingsAckStatus
      → ℕ
      → ℕ
      → List AgentRow
      → List SettingsDocument
      → Result RegistryError (Option NodeSettings × List AgentRow)
  adopt_settings SettingsAckStatus.applied agent revision agents documents = do
    row ←
        or_fail (select_revision revision (find document_key_of (node_document agent) documents))
          document_not_found
    settings ← or_fail (parse_settings row.document_json) unreadable_document
    ok (
      some (record settings { revision = row.revision }),
      update_where agent_key agent (is_at_revision row.revision)
          (adopt (print_labels settings.labels) settings.max_parallel) agents,
    )
  adopt_settings _ agent revision agents documents = ok (none, agents)

  -- ack_applied
  unfoldable pub settings_applied :
      ℕ → ℕ → Option String → ℕ → Registry → Result RegistryError (SettingsAckOutcome × Registry)
  unfolding adopt_settings
  settings_applied agent revision error now s = do
    let affected = matched agent_key agent (accepts_ack revision error) s.agents
    let agents =
        update_where agent_key agent (accepts_ack revision error) (take_ack revision error now)
          s.agents
    current ← or_fail (find agent_key agent agents) agent_not_found
    let status = ack_status affected error
    (settings, adopted) ←
        adopt_settings status agent current.applied_settings_revision agents s.documents
    ok (
      record {
        status = status;
        desired_revision = current.desired_settings_revision;
        applied_revision = current.applied_settings_revision;
        applied_settings = settings;
      },
      append_event (ack_event status agent revision) (record s { agents = adopted }),
    )
