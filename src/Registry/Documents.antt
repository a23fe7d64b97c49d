-- ===== src/Registry/Documents.antt =====
-- `update_settings` of crates/scheduler-store/src/lib.rs.
use task_scheduler.Prelude.{
  ℕ, ◌+◌, String, Bool, not, ◌||◌, Option, none, some, List, leb, ◌==◌, find, update, update_where,
  matched, Result, ok, ◌>>=◌, ◌>>◌, or_fail, guard,
}
use task_scheduler.Registry.Tables.{
  EditLock, SettingsDocument, AgentRow, Registry, RegistryError, lock_required, lock_invalid,
  revision_conflict, settings_updated, lock_key, document_key_of, agent_key, agent_of_document,
  append_event,
}

-- lock_token != lock_token || expires_at <= now
abbrev pub is_usable_lock : ℕ → ℕ → EditLock → Bool
is_usable_lock token now l = not (not (l.lock_token == token) || leb l.expires_at now)

abbrev pub has_revision : ℕ → SettingsDocument → Bool
has_revision expected d = d.revision == expected

abbrev pub revise : String → ℕ → SettingsDocument → SettingsDocument
revise json now d = record d { document_json = json; revision = d.revision + 1; updated_at = now }

-- UPDATE agents SET desired_settings_revision=?,settings_error=NULL
abbrev pub desire : ℕ → ℕ → AgentRow → AgentRow
desire revision now a = record a {
  desired_settings_revision = revision;
  settings_error = none;
  updated_at = now;
}

abbrev pub desire_for : Option ℕ → ℕ → ℕ → List AgentRow → List AgentRow
desire_for none revision now agents = agents
desire_for (some agent) revision now agents = update agent_key agent (desire revision now) agents

unfoldable pub update_settings :
    ℕ → ℕ → String → ℕ → ℕ → Registry → Result RegistryError (ℕ × Registry)
update_settings key expected json token now s = do
  lock ← or_fail (find lock_key key s.locks) lock_required
  guard (is_usable_lock token now lock) lock_invalid
  guard (matched document_key_of key (has_revision expected) s.documents) revision_conflict
  let revision = expected + 1
  ok (
    revision,
    append_event (settings_updated key revision) (record s {
      documents =
          update_where document_key_of key (has_revision expected) (revise json now) s.documents;
      agents = desire_for (agent_of_document key) revision now s.agents;
    }),
  )
