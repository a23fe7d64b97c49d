-- ===== src/Registry/Progress.antt =====
-- How revisions move in a history of operations, and what an editor and an agent may rely on.
use task_scheduler.Prelude.{
  ℕ, sym, ap, false, ◌+◌, ◌∙◌, String, ◌≡◌, refl, subst, Bool, true, Option, none, some, List,
  arith, leb, find, update_where, matched, find-update, find-updated, find-append_some, ok,
  Option-cases, inl, inr,
}
use task_scheduler.Domain.Settings.{NodeSettings}
use task_scheduler.Registry.Tables.{SettingsDocument, Registry, document_key_of}
use task_scheduler.Registry.Documents.{has_revision, revise, update_settings}
use task_scheduler.Registry.Agents.{disconnect_agent, insert_missing}
use task_scheduler.Registry.Revisions.{update_settings-Edited, edit_key, edit}
use task_scheduler.Registry.Registration.{upsert_agent-Connected, settings_applied-documents}
use task_scheduler.Registry.History.{
  Step, acquired, renewed, released, updated, registered, disconnected, acknowledged, acquire_rows,
  renew_rows, release_rows,
}

-- A document stays, and its revision does not fall.
abbrev pub grows : Option SettingsDocument → Option SettingsDocument → Bool
grows none after = true
grows (some d) none = false
grows (some d) (some e) = leb d.revision e.revision

grows_refl : (d : Option SettingsDocument) → grows d d ≡ true
grows_refl none = refl
grows_refl (some d) = ground arith

grows_trans :
    (a b c : Option SettingsDocument) → grows a b ≡ true → grows b c ≡ true → grows a c ≡ true
grows_trans none b c h k = refl
grows_trans (some a) none c h k = cc
grows_trans (some a) (some b) none h k = cc
grows_trans (some a) (some b) (some c) h k = ground arith

abbrev Grows : List SettingsDocument → List SettingsDocument → Type 0
Grows before after =
    (key : ℕ) → grows (find document_key_of key before) (find document_key_of key after) ≡ true

same-Grows : (before after : List SettingsDocument) → before ≡ after → Grows before after
same-Grows before after e key =
    subst (λ d. grows (find document_key_of key before) (find document_key_of key d) ≡ true) e
      (grows_refl (find document_key_of key before))

edit-Grows :
    (key expected : ℕ) (json : String) (now : ℕ) (documents : List SettingsDocument)
    → Grows documents
        (update_where document_key_of key (has_revision expected) (revise json now) documents)
unfolding update_where
edit-Grows key expected json now documents other = ground (
  arith,
  find-update document_key_of key other (edit expected json now) documents
      (edit_key expected json now),
  grows_refl (find document_key_of other documents),
)

insert-Grows :
    (d : SettingsDocument) (documents : List SettingsDocument) (o : Option SettingsDocument)
    → Grows documents (insert_missing o d documents)
insert-Grows d documents (some row) = same-Grows documents documents refl
insert-Grows d documents none = λ key. elim (Option-cases (find document_key_of key documents)) [
  | inl e ↦ rw e refl
  | inr (row, e) ↦
      rw (e, find-append_some document_key_of key documents d row e) (grows_refl (some row))
]

edited_document :
    (key expected : ℕ) (json : String) (now : ℕ) (documents : List SettingsDocument)
    → matched document_key_of key (has_revision expected) documents ≡ true
    → (d : SettingsDocument) × (find document_key_of key
          (update_where document_key_of key (has_revision expected) (revise json now) documents)
        ≡ some d)
      × (d.revision ≡ expected + 1)
unfolding matched update_where
edited_document key expected json now documents m =
    elim (Option-cases (find document_key_of key documents)) [
      | inl e ↦ absurd (ground (arith, m, e))
      | inr (d, e) ↦ (
        edit expected json now d,
        find-updated document_key_of key (edit expected json now) documents d
            (edit_key expected json now) e,
        ground (arith, m, e),
      )
    ]

module _ (print_settings : NodeSettings → String) (print_labels : List (String × String) → String)
    (parse_settings : String → Option NodeSettings) where
  Step-Grows :
      {s t : Registry}
      → Step print_settings print_labels parse_settings s t
      → Grows s.documents t.documents
  unfolding disconnect_agent
  Step-Grows {s} {t} (acquired key owner token now l h) =
      same-Grows s.documents t.documents (acquire_rows key owner token now l s t h).0
  Step-Grows {s} {t} (renewed key token now expires h) =
      same-Grows s.documents t.documents (renew_rows key token now expires s t h).0
  Step-Grows {s} {t} (released key token force e) =
      same-Grows s.documents t.documents
        ((release_rows key token force s).0 ∙ ap (λ u. u.documents) e)
  Step-Grows {s} {t} (updated key expected json token now revision h) =
      let e = update_settings-Edited key expected json token now revision s t h in
      subst (Grows s.documents) (sym e.documents) (edit-Grows key expected json now s.documents)
  Step-Grows {s} {t} (registered report now r h) =
      let c =
        upsert_agent-Connected print_settings print_labels parse_settings report now r s t h in
      subst (Grows s.documents) (sym c.documents) (
        insert-Grows c.initial s.documents
          (find document_key_of c.initial.document_key s.documents))
  Step-Grows {s} {t} (disconnected agent now e) =
      same-Grows s.documents t.documents (ap (λ u. u.documents) e)
  Step-Grows {s} {t} (acknowledged agent revision error now o h) =
      same-Grows s.documents t.documents (
        settings_applied-documents print_settings print_labels parse_settings agent revision error
          now o s t h)

  -- A sequence of committed operations.
  pub data Later : Registry → Registry → Type 0 where
    at_once : (s : Registry) → Later s s
    followed :
        {s t u : Registry}
        → Later s t
        → Step print_settings print_labels parse_settings t u
        → Later s u

  Later-Grows : {s t : Registry} → Later s t → Grows s.documents t.documents
  Later-Grows (at_once s) key = same-Grows s.documents s.documents refl key
  Later-Grows {s} (followed {t = t} {u = u} before step) key =
      grows_trans (find document_key_of key s.documents) (find document_key_of key t.documents)
        (find document_key_of key u.documents) (Later-Grows before key) (Step-Grows step key)

  -- Once an edit of a document has been accepted, no edit that was made from the same revision is
  -- ever accepted again, whatever happens in between and whoever holds the lock: no update is lost.
  pub no_lost_update :
      (key expected : ℕ) (json : String) (token now revision : ℕ) (s t u : Registry)
      → update_settings key expected json token now s ≡ ok (revision, t)
      → Later t u
      → (other_json : String) (other_token later other_revision : ℕ) (v : Registry)
      → ¬ (update_settings key expected other_json other_token later u ≡ ok (other_revision, v))
  unfolding matched
  no_lost_update key expected json token now revision s t u h later_u other_json other_token later
        other_revision v k =
      let e = update_settings-Edited key expected json token now revision s t h in
      let again =
        update_settings-Edited key expected other_json other_token later other_revision u v k in
      let (d, found, at) = edited_document key expected json now s.documents e.current in
      let here : find document_key_of key t.documents ≡ some d =
        ap (find document_key_of key) e.documents ∙ found in
      let growth = Later-Grows later_u key in
      elim (Option-cases (find document_key_of key u.documents)) [
        | inl missing ↦ ground (arith, again.current)
        | inr (x, now_there) ↦ ground (arith, again.current, growth)
      ]
