-- ===== src/Registry/History.antt =====
-- Any sequence of the operations on locks, documents and agents, and how revisions move in it.
use task_scheduler.Prelude.{
  ℕ, sym, false, ◌+◌, ◌≤◌, String, ◌≡◌, refl, subst, Bool, Option, some, List, [], arith, find, ok,
  Option-cases, inl, inr,
}
use task_scheduler.Domain.Settings.{NodeSettings}
use task_scheduler.Registry.Tables.{
  EditLock, SettingsDocument, AgentRow, Registry, AgentRegistration, SettingsAckOutcome,
  document_key_of, agent_key, node_document, agent_of_document,
}
use task_scheduler.Registry.Locks.{acquire_lock, renew_lock, release_lock}
use task_scheduler.Registry.Documents.{desire_for, update_settings}
use task_scheduler.Registry.Agents.{AgentReport, upsert_agent, disconnect_agent, settings_applied}
use task_scheduler.Registry.Revisions.{
  Coherent, Edited, update_settings-Edited, edit-Coherent, update-Coherent,
}
use task_scheduler.Registry.Registration.{
  upsert_agent-Connected, Connected-Coherent, settings_applied-Coherent,
}

abbrev SameRows : Registry → Registry → Type 0
SameRows s t = (s.documents ≡ t.documents) × (s.agents ≡ t.agents)

pub acquire_rows :
    (key : ℕ) (owner : String) (token now : ℕ) (l : EditLock) (s t : Registry)
    → acquire_lock key owner token now s ≡ ok (l, t)
    → SameRows s t
unfolding acquire_lock
acquire_rows key owner token now l s t h = ground arith

pub renew_rows :
    (key token now expires : ℕ) (s t : Registry)
    → renew_lock key token now s ≡ ok (expires, t)
    → SameRows s t
unfolding renew_lock
renew_rows key token now expires s t h = ground arith

pub release_rows :
    (key token : ℕ) (force : Bool) (s : Registry) → SameRows s (release_lock key token force s)
unfolding release_lock
release_rows key token force s = ground arith

Coherent-same :
    (s t : Registry) → SameRows s t → Coherent s.documents s.agents → Coherent t.documents t.agents
Coherent-same s t (d, a) inv =
    subst (Coherent t.documents) a (subst (λ x. Coherent x s.agents) d inv)

Edited-Coherent :
    {key expected : ℕ} {json : String} {token now revision : ℕ} {s t : Registry}
    → Edited key expected json token now revision s t
    → Coherent s.documents s.agents
    → Coherent t.documents t.agents
Edited-Coherent {key} {expected} {json} {now = now} {s = s} {t = t} e inv =
    subst (Coherent t.documents) (sym e.agents) (
      subst (λ d. Coherent d (desire_for (agent_of_document key) (expected + 1) now s.agents))
        (sym e.documents) (edit-Coherent expected json now key s.documents s.agents e.current inv))

disconnect-Coherent :
    (agent now : ℕ) (s : Registry)
    → Coherent s.documents s.agents
    → Coherent (disconnect_agent agent now s).documents (disconnect_agent agent now s).agents
unfolding disconnect_agent
disconnect-Coherent agent now s inv =
    update-Coherent (λ a. record a { connected = false; updated_at = now }) (λ x. refl) (λ x. refl)
      (λ x. refl) agent s.documents s.agents inv

module _ (print_settings : NodeSettings → String) (print_labels : List (String × String) → String)
    (parse_settings : String → Option NodeSettings) where
  -- One committed operation.
  pub data Step (s t : Registry) : Type 0 where
    acquired :
        (key : ℕ) (owner : String) (token now : ℕ) (l : EditLock)
        → acquire_lock key owner token now s ≡ ok (l, t)
        → Step s t
    renewed : (key token now expires : ℕ) → renew_lock key token now s ≡ ok (expires, t) → Step s t
    released : (key token : ℕ) (force : Bool) → release_lock key token force s ≡ t → Step s t
    updated :
        (key expected : ℕ) (json : String) (token now revision : ℕ)
        → update_settings key expected json token now s ≡ ok (revision, t)
        → Step s t
    registered :
        (report : AgentReport) (now : ℕ) (r : AgentRegistration)
        → upsert_agent print_settings print_labels parse_settings report now s ≡ ok (r, t)
        → Step s t
    disconnected : (agent now : ℕ) → disconnect_agent agent now s ≡ t → Step s t
    acknowledged :
        (agent revision : ℕ) (error : Option String) (now : ℕ) (o : SettingsAckOutcome)
        → settings_applied print_settings print_labels parse_settings agent revision error now s
          ≡ ok (o, t)
        → Step s t

  pub Step-Coherent :
      {s t : Registry} → Step s t → Coherent s.documents s.agents → Coherent t.documents t.agents
  Step-Coherent {s} {t} (acquired key owner token now l h) inv =
      Coherent-same s t (acquire_rows key owner token now l s t h) inv
  Step-Coherent {s} {t} (renewed key token now expires h) inv =
      Coherent-same s t (renew_rows key token now expires s t h) inv
  Step-Coherent {s} {t} (released key token force e) inv =
      subst (λ u. Coherent u.documents u.agents) e
        (Coherent-same s (release_lock key token force s) (release_rows key token force s) inv)
  Step-Coherent {s} {t} (updated key expected json token now revision h) inv =
      Edited-Coherent (update_settings-Edited key expected json token now revision s t h) inv
  Step-Coherent {s} {t} (registered report now r h) inv =
      Connected-Coherent print_settings print_labels parse_settings report now s t
        (upsert_agent-Connected print_settings print_labels parse_settings report now r s t h) inv
  Step-Coherent {s} {t} (disconnected agent now e) inv =
      subst (λ u. Coherent u.documents u.agents) e (disconnect-Coherent agent now s inv)
  Step-Coherent {s} {t} (acknowledged agent revision error now o h) inv =
      settings_applied-Coherent print_settings print_labels parse_settings agent revision error now
        o s t h inv

  -- A registry that the operations lead to from one without agents.
  pub data Reachable : Registry → Type 0 where
    start : (s : Registry) → s.agents ≡ [] → Reachable s
    after : {s t : Registry} → Reachable s → Step s t → Reachable t

  pub Reachable-Coherent : {s : Registry} → Reachable s → Coherent s.documents s.agents
  unfolding find
  Reachable-Coherent (start s e) = λ agent. rw e refl
  Reachable-Coherent (after from step) = Step-Coherent step (Reachable-Coherent from)

  -- In every registry that the operations reach, a registered agent has a settings document. The
  -- revision that the agent is to run with is the document's, and the agent has applied none
  -- beyond it.
  pub desired_follows_document :
      (s : Registry) (agent : ℕ) (a : AgentRow)
      → Reachable s
      → find agent_key agent s.agents ≡ some a
      → (d : SettingsDocument) × (find document_key_of (node_document agent) s.documents ≡ some d)
        × (a.desired_settings_revision ≡ d.revision)
        × (a.applied_settings_revision ≤ d.revision)
  desired_follows_document s agent a reachable found =
      let inv = Reachable-Coherent reachable agent in
      elim (Option-cases (find document_key_of (node_document agent) s.documents)) [
        | inl missing ↦ absurd (ground (arith, inv))
        | inr (d, e) ↦ (d, e, ground (arith, inv), ground (arith, inv))
      ]
