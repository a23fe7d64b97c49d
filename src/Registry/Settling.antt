-- ===== src/Registry/Settling.antt =====
-- When an edit and an acknowledgement take effect.
use task_scheduler.Prelude.{
  ℕ, ap, false, ◌∙◌, String, ◌≡◌, refl, Bool, true, Option, none, some, List, ◌&&◌, arith, ◌==◌,
  find, update_where, matched, find-updated, ok, is_ok, >>=-of-ok, or_fail, Option-cases, inl, inr,
  if◌then◌else◌,
}
use task_scheduler.Domain.Settings.{NodeSettings}
use task_scheduler.Registry.Tables.{
  append_event, EditLock, SettingsDocument, AgentRow, Registry, RegistryError, SettingsAckStatus,
  SettingsAckOutcome, document_key_of, agent_key, lock_key, node_document, agent_not_found,
  document_not_found,
}
use task_scheduler.Registry.Locks.{current_lock}
use task_scheduler.Registry.Documents.{has_revision, update_settings}
use task_scheduler.Registry.Agents.{
  ack_event, settings_applied, accepts_ack, take_ack, ack_status, adopt_settings, adopt,
  is_at_revision, select_revision,
}
use task_scheduler.Registry.History.{Reachable, Reachable-Coherent}

-- Is `token` that of the lock?
abbrev pub opens : ℕ → Option EditLock → Bool
opens token none = false
opens token (some l) = l.lock_token == token

-- An edit is accepted exactly when the token is that of the document's current lock and the
-- document is at the revision that the editor read.
pub update_settings_accepts :
    (key expected : ℕ) (json : String) (token now : ℕ) (s : Registry)
    → is_ok (update_settings key expected json token now s) ≡ (
        opens token (current_lock key now s)
        && matched document_key_of key (has_revision expected) s.documents)
unfolding update_settings current_lock
update_settings_accepts key expected json token now s =
    elim (Option-cases (find lock_key key s.locks)) [
      | inl e ↦ ground (arith, e)
      | inr (l, e) ↦ ground (arith, e)
    ]

module _ (print_settings : NodeSettings → String) (print_labels : List (String × String) → String)
    (parse_settings : String → Option NodeSettings) where
  -- What an agent that acknowledges its desired revision brings about.
  pub record Settled (agent : ℕ) (a : AgentRow) (settings : NodeSettings) (now : ℕ) (s : Registry)
      : Type 0 where
    pub outcome : SettingsAckOutcome
    pub after : Registry
    pub row : AgentRow
    pub answer :
        settings_applied print_settings print_labels parse_settings agent
          a.desired_settings_revision none now s
        ≡ ok (outcome, after)
    pub is_applied : outcome.status ≡ SettingsAckStatus.applied
    pub adopted :
        outcome.applied_settings ≡ some (record settings { revision = a.desired_settings_revision })
    pub found : find agent_key agent after.agents ≡ some row
    pub in_step : row.applied_settings_revision ≡ a.desired_settings_revision
    pub desired : row.desired_settings_revision ≡ a.desired_settings_revision
    pub no_error : row.settings_error ≡ none
    pub limit : row.capacity ≡ settings.max_parallel

  -- In every registry that the operations reach, an agent that acknowledges the revision it is to
  -- run with is answered `applied`: its row then has that revision applied, no error, and the
  -- capacity of the settings. The text of its document must be readable.
  pub settings_applied_settles :
      (s : Registry) (agent : ℕ) (a : AgentRow) (d : SettingsDocument) (settings : NodeSettings)
      (now : ℕ)
      → Reachable print_settings print_labels parse_settings s
      → find agent_key agent s.agents ≡ some a
      → find document_key_of (node_document agent) s.documents ≡ some d
      → parse_settings d.document_json ≡ some settings
      → Settled agent a settings now s
  unfolding settings_applied adopt_settings update_where matched
  settings_applied_settles s agent a d settings now reachable found document parsed =
      let revision = a.desired_settings_revision in
      let inv = Reachable-Coherent print_settings print_labels parse_settings reachable agent in
      let accept =
        λ (x : AgentRow). if accepts_ack revision none x then take_ack revision none now x else x in
      let b = take_ack revision none now a in
      let accepted : accept a ≡ b = ground (arith, inv, found, document) in
      let same : revision ≡ d.revision = ground (arith, inv, found, document) in
      let agents =
        update_where agent_key agent (accepts_ack revision none) (take_ack revision none now)
          s.agents in
      let found_b : find agent_key agent agents ≡ some b =
        find-updated agent_key agent accept s.agents a (λ x. ground arith) found
        ∙ ap some accepted in
      let m : matched agent_key agent (accepts_ack revision none) s.agents ≡ true =
        ground (arith, inv, found, document) in
      let row = adopt (print_labels settings.labels) settings.max_parallel in
      let take = λ (x : AgentRow). if is_at_revision d.revision x then row x else x in
      let adopted = update_where agent_key agent (is_at_revision d.revision) row agents in
      let applied = some (record settings { revision = d.revision }) in
      let selected : or_fail {E = RegistryError}
            (select_revision revision (find document_key_of (node_document agent) s.documents))
            document_not_found
          ≡ ok d =
        ground (arith, document, same) in
      let adoption : adopt_settings print_settings print_labels parse_settings
            (ack_status (matched agent_key agent (accepts_ack revision none) s.agents) none) agent
            revision agents s.documents
          ≡ ok (applied, adopted) =
        rw m (
          >>=-of-ok
            (or_fail
              (select_revision revision (find document_key_of (node_document agent) s.documents))
              document_not_found)
            _ d selected (rw parsed refl)) in
      let outcome : SettingsAckOutcome = record {
        status = SettingsAckStatus.applied;
        desired_revision = revision;
        applied_revision = revision;
        applied_settings = applied;
      } in
      let after =
        append_event (ack_event SettingsAckStatus.applied agent revision)
          (record s { agents = adopted }) in
      record {
        outcome = outcome;
        after = after;
        row = row b;
        answer =
            >>=-of-ok (or_fail (find agent_key agent agents) agent_not_found) _ b (rw found_b refl)
              (>>=-of-ok
                (adopt_settings print_settings print_labels parse_settings
                  (ack_status (matched agent_key agent (accepts_ack revision none) s.agents) none)
                  agent revision agents s.documents)
                _ (applied, adopted) adoption (rw m refl));
        is_applied = refl;
        adopted = rw same refl;
        found =
            find-updated agent_key agent take agents b (λ x. ground arith) found_b
            ∙ ap some (ground (arith, same));
        in_step = refl;
        desired = refl;
        no_error = refl;
        limit = refl;
      }
