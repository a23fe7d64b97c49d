-- ===== src/Registry/Coherence.antt =====
-- What an insertion, a connection and an acknowledgement do to the rows keeps them in step.
use task_scheduler.Prelude.{
  ℕ, String, ◌≡◌, refl, Option, none, some, List, arith, if◌then◌else◌, find, update_where,
  find-update, find-append, find-append_some, Option-cases, inl, inr,
}
use task_scheduler.Registry.Tables.{
  SettingsDocument, AgentRow, document_key_of, agent_key, node_document,
}
use task_scheduler.Registry.Agents.{
  insert_missing, AgentReport, new_agent, reconnect, upsert_row, accepts_ack, take_ack,
}
use task_scheduler.Registry.Revisions.{Coherent, update-Coherent}

-- A document that is inserted where none was leaves the agents in step.
pub insert-Coherent :
    (d : SettingsDocument) (documents : List SettingsDocument) (agents : List AgentRow)
    → Coherent documents agents
    → Coherent (insert_missing (find document_key_of d.document_key documents) d documents) agents
insert-Coherent d documents agents inv agent =
    elim (Option-cases (find document_key_of d.document_key documents)) [
      | inr (row, e) ↦ rw e (inv agent)
      | inl e ↦ elim (Option-cases (find document_key_of (node_document agent) documents)) [
        | inl missing ↦ ground (arith, inv agent)
        | inr (row, found) ↦
            rw (e, find-append_some document_key_of (node_document agent) documents d row found)
              (rw found at (inv agent))
      ]
    ]

-- A new agent desires the revision of its document.
pub upsert_row-Coherent :
    (report : AgentReport) (labels_json : String) (now : ℕ) (row : SettingsDocument)
    (documents : List SettingsDocument) (agents : List AgentRow)
    → find document_key_of (node_document report.id) documents ≡ some row
    → Coherent documents agents
    → Coherent documents
        (upsert_row (find agent_key report.id agents) report labels_json row.revision now agents)
upsert_row-Coherent report labels_json now row documents agents found inv =
    elim (Option-cases (find agent_key report.id agents)) [
      | inr (a, e) ↦ rw e (
          update-Coherent (reconnect report labels_json now) (λ x. refl) (λ x. refl) (λ x. refl)
            report.id documents agents inv)
      | inl e ↦ λ agent. elim (Option-cases (find agent_key agent agents)) [
        | inr (a, known) ↦
            rw
              (
                e,
                find-append_some agent_key agent agents
                    (new_agent report labels_json row.revision now) a known,
              )
              (rw known at (inv agent))
        | inl missing ↦ ground (
          arith,
          find-append agent_key agent agents (new_agent report labels_json row.revision now)
              missing,
          found,
          e,
        )
      ]
    ]

-- A rejection keeps the revisions, a success applies the desired one.
pub ack-Coherent :
    (agent revision : ℕ) (error : Option String) (now : ℕ) (documents : List SettingsDocument)
    (agents : List AgentRow)
    → Coherent documents agents
    → Coherent documents (
        update_where agent_key agent
          (accepts_ack revision error)
          (take_ack revision error now)
          agents)
unfolding update_where
ack-Coherent agent revision (some e) now documents agents inv other =
    update-Coherent
      (λ x. if accepts_ack revision (some e) x then take_ack revision (some e) now x else x)
      (λ x. ground arith) (λ x. ground arith) (λ x. ground arith) agent documents agents inv other
ack-Coherent agent revision none now documents agents inv other = ground (
  arith,
  inv other,
  find-update agent_key agent other
      (λ x. if accepts_ack revision none x then take_ack revision none now x else x) agents
      (λ x. ground arith),
)
