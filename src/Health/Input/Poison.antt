-- ===== src/Health/Input/Poison.antt =====
-- What a confirmed poison verdict of `evaluate_input_health` means.
use task_scheduler.Prelude.{
  ℕ, ◌≤◌, max, String, ◌≡◌, true, none, List, [], ◌∷◌, arith, length, any, ◌∙◌, sym, ◌↔◌,
}
use task_scheduler.Health.Classify.{FailureFamily}
use task_scheduler.Health.NameSet.{contains, Distinct, Distinct-length}
use task_scheduler.Health.Input.Groups.{InputHealthObservation, Groups, last_functional, group}
use task_scheduler.Health.Input.Evaluate.{
  InputHealthState, evaluate_input_health, strongest, verdict,
}
use task_scheduler.Health.Input.Table.{
  nodes_of, Unique, seen_by, group-Unique, contains-group, group-Distinct,
}
use task_scheduler.Health.Input.Strongest.{
  strongest-champion, champion_most, verdict_confirmed_nodes, verdict_enough,
}

module _ (os : List InputHealthObservation) (required : ℕ) where
  -- The nodes that saw family `g` since the last functional observation.
  abbrev pub Saw : FailureFamily → String → Type 0
  Saw g a = any (seen_by (last_functional none os) g a) os ≡ true

  -- `nodes` are different healthy nodes, at least `max(required, 2)`, and each saw family `g`
  -- since the last functional observation.
  pub record IsPoison (g : FailureFamily) (nodes : List String) : Type 0 where
    pub distinct : Distinct nodes
    pub enough : max required 2 ≤ length nodes
    pub saw : (a : String) → contains a nodes ≡ true → Saw g a

  table : Groups
  table = group (last_functional none os) [] os

  table-saw :
      (g : FailureFamily) (a : String)
      → contains a (nodes_of g table) ≡ any (seen_by (last_functional none os) g a) os
  unfolding table nodes_of
  table-saw g a = contains-group (last_functional none os) g a [] os

  table-Distinct : (g : FailureFamily) → Distinct (nodes_of g table)
  unfolding table nodes_of
  table-Distinct g = group-Distinct (last_functional none os) g [] os tt

  table-Unique : Unique table
  unfolding table
  table-Unique = group-Unique (last_functional none os) [] os tt

  most-le :
      (m : Groups) (g : FailureFamily)
      → length (nodes_of g m) ≤ (verdict (max required 2) (strongest none m)).distinct_healthy_nodes
  unfolding verdict strongest nodes_of
  most-le [] g = omega arith
  most-le ((h, t) ∷ m) g =
      rw (strongest-champion (h, t) m) (let c = champion_most (h, t) m g in ground arith)

  confirmed_by :
      (evaluate_input_health os required).state ≡ InputHealthState.confirmed
      → (g : FailureFamily) × (nodes : List String) × IsPoison g nodes
  unfolding evaluate_input_health table
  confirmed_by e =
      let (g, enough) = verdict_confirmed_nodes (max required 2) table table-Unique e in
      (
        g,
        nodes_of g table,
        record {
          distinct = table-Distinct g;
          enough = enough;
          saw = λ a h. sym (table-saw g a) ∙ h;
        },
      )

  confirms :
      (g : FailureFamily) (nodes : List String)
      → IsPoison g nodes
      → (evaluate_input_health os required).state ≡ InputHealthState.confirmed
  unfolding evaluate_input_health table
  confirms g nodes p = verdict_enough (max required 2) _ (omega arith) (
      omega (
        arith,
        p.enough,
        most-le table g,
        Distinct-length nodes (nodes_of g table) p.distinct (λ a h. table-saw g a ∙ p.saw a h),
      ))

  -- An input is confirmed as poison exactly when, since its last functional observation, failures
  -- of one and the same family came from `max(required, 2)` different nodes that were healthy.
  pub confirmed_iff :
      ((evaluate_input_health os required).state ≡ InputHealthState.confirmed)
      ↔ ((g : FailureFamily) × (nodes : List String) × IsPoison g nodes)
  confirmed_iff = (confirmed_by, λ (g, nodes, p). confirms g nodes p)
