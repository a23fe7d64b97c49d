-- ===== src/Registry/Registration.antt =====
-- A connection and an acknowledgement keep agents and documents in step.
use task_scheduler.Prelude.{
  sym, ap, ℕ, subst, ok_state, String, ◌≡◌, refl, Option, some, List, arith, if◌then◌else◌, find,
  update_where, matched, ok, >>=-eq-ok, or_fail, or_fail-ok,
}
use task_scheduler.Domain.Settings.{NodeSettings, default_node_settings}
use task_scheduler.Registry.Tables.{
  SettingsDocument, AgentRow, Registry, unreadable_document, document_not_found, agent_not_found,
  AgentRegistration, SettingsAckStatus, SettingsAckOutcome, document_key_of, agent_key,
  node_document,
}
use task_scheduler.Registry.Agents.{
  insert_missing, first_document, AgentReport, upsert_row, accepts_ack, take_ack, ack_status,
  is_at_revision, adopt, adopt_settings, select_revision, upsert_agent, settings_applied,
}
use task_scheduler.Registry.Revisions.{Coherent, update-Coherent}
use task_scheduler.Registry.Coherence.{insert-Coherent, upsert_row-Coherent, ack-Coherent}

module _ (print_settings : NodeSettings → String) (print_labels : List (String × String) → String)
    (parse_settings : String → Option NodeSettings) where
  -- What a connection leaves: the agent's document, its first one if there was none, and its row.
  pub record Connected (report : AgentReport) (now : ℕ) (s t : Registry) : Type 0 where
    pub initial : SettingsDocument
    pub row : SettingsDocument
    pub initial_key : initial.document_key ≡ node_document report.id
    pub found : find document_key_of (node_document report.id) t.documents ≡ some row
    pub documents :
        t.documents
        ≡ insert_missing (find document_key_of initial.document_key s.documents) initial s.documents
    pub agents :
        t.agents
        ≡ upsert_row
            (find agent_key report.id s.agents)
            report
            (print_labels report.labels)
            row.revision
            now
            s.agents

  pub upsert_agent-Connected :
      (report : AgentReport) (now : ℕ) (r : AgentRegistration) (s t : Registry)
      → upsert_agent print_settings print_labels parse_settings report now s ≡ ok (r, t)
      → Connected report now s t
  unfolding upsert_agent
  upsert_agent-Connected report now r s t h =
      let reported = record default_node_settings {
        labels = report.labels;
        max_parallel = report.capacity;
      } in
      let first = first_document report.id (print_settings reported) now in
      let documents =
        insert_missing (find document_key_of (node_document report.id) s.documents) first
          s.documents in
      let (row, found, h1) =
        >>=-eq-ok
          (or_fail (find document_key_of (node_document report.id) documents) document_not_found) _
          h in
      let (settings, p, h2) =
        >>=-eq-ok (or_fail (parse_settings row.document_json) unreadable_document) _ h1 in
      let agents =
        upsert_row (find agent_key report.id s.agents) report (print_labels report.labels)
          row.revision now s.agents in
      let (a, q, h3) = >>=-eq-ok (or_fail (find agent_key report.id agents) agent_not_found) _ h2 in
      subst (Connected report now s) (ok_state h3) (record {
        initial = first;
        row = row;
        initial_key = refl;
        found =
            or_fail-ok (find document_key_of (node_document report.id) documents) document_not_found
              row found;
        documents = refl;
        agents = refl;
      })

  pub Connected-Coherent :
      (report : AgentReport) (now : ℕ) (s t : Registry)
      → Connected report now s t
      → Coherent s.documents s.agents
      → Coherent t.documents t.agents
  Connected-Coherent report now s t c inv = subst (Coherent t.documents) (sym c.agents) (
      upsert_row-Coherent report (print_labels report.labels) now c.row t.documents s.agents c.found
        (subst (λ d. Coherent d s.agents) (sym c.documents)
          (insert-Coherent c.initial s.documents s.agents inv)))

  adopt_settings-Coherent :
      (status : SettingsAckStatus) (agent revision : ℕ) (documents : List SettingsDocument)
      (agents : List AgentRow) (o : Option NodeSettings) (adopted : List AgentRow)
      → adopt_settings print_settings print_labels parse_settings status agent revision agents
          documents
        ≡ ok (o, adopted)
      → Coherent documents agents
      → Coherent documents adopted
  unfolding adopt_settings update_where
  adopt_settings-Coherent SettingsAckStatus.rejected agent revision documents agents o adopted h
        inv =
      subst (Coherent documents) (ok_state h) inv
  adopt_settings-Coherent SettingsAckStatus.ignored agent revision documents agents o adopted h
        inv =
      subst (Coherent documents) (ok_state h) inv
  adopt_settings-Coherent SettingsAckStatus.applied agent revision documents agents o adopted h
        inv =
      let (row, found, h1) =
        >>=-eq-ok
          (or_fail (select_revision revision (find document_key_of (node_document agent) documents))
            document_not_found)
          _ h in
      let (settings, p, h2) =
        >>=-eq-ok (or_fail (parse_settings row.document_json) unreadable_document) _ h1 in
      let f = λ (a : AgentRow).
        if is_at_revision row.revision a
        then adopt (print_labels settings.labels) settings.max_parallel a
        else a in
      subst (Coherent documents) (ok_state h2) (
        update-Coherent f (λ a. ground arith) (λ a. ground arith) (λ a. ground arith) agent
          documents agents inv)

  pub settings_applied-Coherent :
      (agent revision : ℕ) (error : Option String) (now : ℕ) (o : SettingsAckOutcome)
      (s t : Registry)
      → settings_applied print_settings print_labels parse_settings agent revision error now s
        ≡ ok (o, t)
      → Coherent s.documents s.agents
      → Coherent t.documents t.agents
  unfolding settings_applied
  settings_applied-Coherent agent revision error now o s t h inv =
      let affected = matched agent_key agent (accepts_ack revision error) s.agents in
      let agents =
        update_where agent_key agent (accepts_ack revision error) (take_ack revision error now)
          s.agents in
      let (current, found, h1) =
        >>=-eq-ok (or_fail (find agent_key agent agents) agent_not_found) _ h in
      let ((settings, adopted), a, h2) =
        >>=-eq-ok
          (adopt_settings print_settings print_labels parse_settings (ack_status affected error)
            agent current.applied_settings_revision agents s.documents)
          _ h1 in
      subst (λ u. Coherent u.documents u.agents) (ok_state h2)
        (adopt_settings-Coherent (ack_status affected error) agent current.applied_settings_revision
          s.documents agents settings adopted a
          (ack-Coherent agent revision error now s.documents s.agents inv))

  pub settings_applied-documents :
      (agent revision : ℕ) (error : Option String) (now : ℕ) (o : SettingsAckOutcome)
      (s t : Registry)
      → settings_applied print_settings print_labels parse_settings agent revision error now s
        ≡ ok (o, t)
      → s.documents ≡ t.documents
  unfolding settings_applied
  settings_applied-documents agent revision error now o s t h =
      let affected = matched agent_key agent (accepts_ack revision error) s.agents in
      let agents =
        update_where agent_key agent (accepts_ack revision error) (take_ack revision error now)
          s.agents in
      let (current, found, h1) =
        >>=-eq-ok (or_fail (find agent_key agent agents) agent_not_found) _ h in
      let ((settings, adopted), a, h2) =
        >>=-eq-ok
          (adopt_settings print_settings print_labels parse_settings (ack_status affected error)
            agent current.applied_settings_revision agents s.documents)
          _ h1 in
      ap (λ u. u.documents) (ok_state h2)
