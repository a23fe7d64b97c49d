-- ===== src/Registry/Revisions.antt =====
-- The revisions of settings documents and of the agents that shall run with them.
use task_scheduler.Prelude.{
  ℕ, zero, suc, ◌+◌, String, ◌≡◌, refl, Bool, true, false, ◌&&◌, Option, none, some, List, arith,
  leb, ◌==◌, if◌then◌else◌, find, update, update_where, matched, map_row, find-update, ok,
  >>=-eq-ok, or_fail, or_fail-ok, guard,
}
use task_scheduler.Registry.Tables.{
  EditLock, SettingsDocument, AgentRow, Registry, lock_required, lock_invalid, revision_conflict,
  lock_key, document_key_of, agent_key, agent_of_document, node_document,
}
use task_scheduler.Registry.Documents.{
  is_usable_lock, has_revision, revise, desire, desire_for, update_settings,
}

-- An agent desires the revision of its document, and has applied none beyond it.
abbrev pub agrees : Option AgentRow → Option SettingsDocument → Bool
agrees none document = true
agrees (some a) none = false
agrees (some a) (some d) =
    a.desired_settings_revision == d.revision
    && leb a.applied_settings_revision a.desired_settings_revision

abbrev pub Coherent : List SettingsDocument → List AgentRow → Type 0
Coherent documents agents =
    (agent : ℕ)
    → agrees (find agent_key agent agents) (find document_key_of (node_document agent) documents)
      ≡ true

-- What an accepted edit found, and what it leaves.
pub record Edited (key expected : ℕ) (json : String) (token now revision : ℕ) (s t : Registry)
    : Type 0 where
  pub lock : EditLock
  pub held : find lock_key key s.locks ≡ some lock
  pub usable : is_usable_lock token now lock ≡ true
  pub current : matched document_key_of key (has_revision expected) s.documents ≡ true
  pub next : revision ≡ expected + 1
  pub documents :
      t.documents
      ≡ update_where document_key_of key (has_revision expected) (revise json now) s.documents
  pub agents : t.agents ≡ desire_for (agent_of_document key) (expected + 1) now s.agents
  pub locks : t.locks ≡ s.locks

pub update_settings-Edited :
    (key expected : ℕ) (json : String) (token now revision : ℕ) (s t : Registry)
    → update_settings key expected json token now s ≡ ok (revision, t)
    → Edited key expected json token now revision s t
unfolding update_settings
update_settings-Edited key expected json token now revision s t h =
    let (lock, l, h1) = >>=-eq-ok (or_fail (find lock_key key s.locks) lock_required) _ h in
    let (_, u, h2) = >>=-eq-ok (guard (is_usable_lock token now lock) lock_invalid) _ h1 in
    let (_, c, h3) =
      >>=-eq-ok
        (guard (matched document_key_of key (has_revision expected) s.documents) revision_conflict)
        _ h2 in
    record {
      lock = lock;
      held = or_fail-ok (find lock_key key s.locks) lock_required lock l;
      usable = ground arith;
      current = ground arith;
      next = ground arith;
      documents = ground arith;
      agents = ground arith;
      locks = ground arith;
    }

module _ (expected : ℕ) (json : String) (now : ℕ) where
  abbrev pub edit : SettingsDocument → SettingsDocument
  edit d = if has_revision expected d then revise json now d else d

  pub edit_key : (d : SettingsDocument) → document_key_of (edit d) ≡ document_key_of d
  edit_key d = ground arith

  pub edit-Coherent :
      (key : ℕ) (documents : List SettingsDocument) (agents : List AgentRow)
      → matched document_key_of key (has_revision expected) documents ≡ true
      → Coherent documents agents
      → Coherent
          (update_where document_key_of key (has_revision expected) (revise json now) documents)
          (desire_for (agent_of_document key) (expected + 1) now agents)
  unfolding matched update_where
  edit-Coherent zero documents agents m inv agent = ground (
    arith,
    inv agent,
    find-update document_key_of zero (node_document agent) edit documents edit_key,
  )
  edit-Coherent (suc a) documents agents m inv agent = ground (
    arith,
    inv agent,
    find-update document_key_of (suc a) (node_document agent) edit documents edit_key,
    find-update agent_key a agent (desire (expected + 1) now) agents (λ x. refl),
  )

-- An update of agents that keeps the revisions, as those of a connection.
module _ (f : AgentRow → AgentRow) (same_id : (a : AgentRow) → (f a).id ≡ a.id)
    (same_desired : (a : AgentRow) → (f a).desired_settings_revision ≡ a.desired_settings_revision)
    (same_applied : (a : AgentRow)
      → (f a).applied_settings_revision ≡ a.applied_settings_revision) where
  pub agrees-kept :
      (a : Option AgentRow) (d : Option SettingsDocument)
      → agrees a d ≡ true
      → agrees (map_row f a) d ≡ true
  agrees-kept none d h = h
  agrees-kept (some a) none h = h
  agrees-kept (some a) (some d) h = ground (arith, same_desired a, same_applied a)

  pub update-Coherent :
      (key : ℕ) (documents : List SettingsDocument) (agents : List AgentRow)
      → Coherent documents agents
      → Coherent documents (update agent_key key f agents)
  update-Coherent key documents agents inv agent = ground (
    arith,
    find-update agent_key key agent f agents same_id,
    inv agent,
    agrees-kept (find agent_key agent agents) (find document_key_of (node_document agent) documents)
        (inv agent),
  )
