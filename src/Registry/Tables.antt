-- ===== src/Registry/Tables.antt =====
-- The rows of `edit_locks`, `settings_documents`, `agents` and `node_health` (migrations/*.sql and
-- the records of crates/scheduler-store/src/lib.rs). The key of a document is a number: 0 is the key
-- "global", and `suc a` is "node:" followed by the id of agent `a`. A revision is never negative.
use task_scheduler.Prelude.{ℕ, zero, suc, String, Bool, Option, none, some, List, [], ◌∷◌, ◌++◌}
use task_scheduler.Domain.Settings.{NodeSettings}
use task_scheduler.Health.Node.Apply.{NodeHealthState}

pub record EditLock : Type 0 where
  pub document_key : ℕ
  pub owner_session : String
  pub lock_token : ℕ
  pub expires_at : ℕ

pub record SettingsDocument : Type 0 where
  pub document_key : ℕ
  pub document_json : String
  pub revision : ℕ
  pub updated_at : ℕ

pub record AgentRow : Type 0 where
  pub id : ℕ
  pub hostname : String
  pub labels_json : String
  pub capacity : ℕ
  pub running : ℕ
  pub connected : Bool
  pub desired_settings_revision : ℕ
  pub applied_settings_revision : ℕ
  pub settings_error : Option String
  pub last_seen_at : ℕ
  pub created_at : ℕ
  pub updated_at : ℕ

pub record NodeHealthRow : Type 0 where
  pub agent_id : ℕ
  pub state : NodeHealthState
  pub transitioned_at : ℕ
  pub updated_at : ℕ

-- audit_events.event_type of a document or an agent, with the numbers of its metadata
pub data RegistryEvent : Type 0 where
  lock_force_released : (document_key : ℕ) → RegistryEvent
  settings_updated : (document_key revision : ℕ) → RegistryEvent
  ack_applied ack_ignored ack_rejected : (agent revision : ℕ) → RegistryEvent
  agent_connected : (agent capacity : ℕ) → RegistryEvent
  agent_disconnected : (agent : ℕ) → RegistryEvent

pub record Registry : Type 0 where
  pub locks : List EditLock
  pub documents : List SettingsDocument
  pub agents : List AgentRow
  pub node_health : List NodeHealthRow
  pub audit : List RegistryEvent

pub data RegistryError : Type 0 where
  being_edited : (owner : String) → RegistryError
  lock_required lock_invalid lock_not_found revision_conflict : RegistryError
  unreadable_document document_not_found agent_not_found : RegistryError

pub record AgentRegistration : Type 0 where
  pub desired_settings : NodeSettings
  pub applied_settings_revision : ℕ

pub data SettingsAckStatus : Type 0 where
  applied rejected ignored : SettingsAckStatus

pub record SettingsAckOutcome : Type 0 where
  pub status : SettingsAckStatus
  pub desired_revision : ℕ
  pub applied_revision : ℕ
  pub applied_settings : Option NodeSettings

abbrev pub lock_key : EditLock → ℕ
lock_key l = l.document_key

abbrev pub document_key_of : SettingsDocument → ℕ
document_key_of d = d.document_key

abbrev pub agent_key : AgentRow → ℕ
agent_key a = a.id

abbrev pub health_key : NodeHealthRow → ℕ
health_key h = h.agent_id

-- format!("node:{id}")
abbrev pub node_document : ℕ → ℕ
node_document agent = suc agent

-- document_key.strip_prefix("node:")
abbrev pub agent_of_document : ℕ → Option ℕ
agent_of_document zero = none
agent_of_document (suc agent) = some agent

-- append_audit_tx
abbrev pub append_event : RegistryEvent → Registry → Registry
append_event e s = record s { audit = s.audit ++ e ∷ [] }
