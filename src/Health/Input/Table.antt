-- ===== src/Health/Input/Table.antt =====
-- The table that the loop of `evaluate_input_health` builds: for each family the nodes that saw it.
use task_scheduler.Prelude.{
  ℕ, String, ◌≡◌, refl, Bool, false, ◌&&◌, ◌||◌, Option, List, [], ◌∷◌, arith, if◌then◌else◌,
  str_eq, any, inl, inr, Bool-cases,
}
use task_scheduler.Health.Classify.{FailureFamily}
use task_scheduler.Health.NameSet.{insert, contains, Distinct, insert-Distinct, contains-insert}
use task_scheduler.Health.Input.Groups.{
  InputHealthObservation, Groups, family_eq, group, add_node, counts,
}

unfoldable pub nodes_of : FailureFamily → Groups → List String
nodes_of g [] = []
nodes_of g ((f, s) ∷ m) = if family_eq f g then s else nodes_of g m

unfoldable pub has_family : FailureFamily → Groups → Bool
has_family g [] = false
has_family g ((f, s) ∷ m) = family_eq f g || has_family g m

-- No family stands twice in the table.
abbrev pub Unique : Groups → Type 0
Unique [] = Unit
Unique ((f, s) ∷ m) = (has_family f m ≡ false) × Unique m

pub nodes_of-add_node :
    (g f : FailureFamily) (a : String) (m : Groups)
    → nodes_of g (add_node f a m)
      ≡ (if family_eq f g then insert a (nodes_of g m) else nodes_of g m)
unfolding nodes_of add_node
nodes_of-add_node g f a [] = refl
nodes_of-add_node g f a ((h, s) ∷ m) = ground (arith, nodes_of-add_node g f a m)

has_family-add_node :
    (g f : FailureFamily) (a : String) (m : Groups)
    → has_family g (add_node f a m) ≡ (family_eq f g || has_family g m)
unfolding has_family add_node
has_family-add_node g f a [] = refl
has_family-add_node g f a ((h, s) ∷ m) = ground (arith, has_family-add_node g f a m)

add_node-Unique : (f : FailureFamily) (a : String) (m : Groups) → Unique m → Unique (add_node f a m)
unfolding add_node has_family
add_node-Unique f a [] u = (refl, tt)
add_node-Unique f a ((h, s) ∷ m) u =
    ground (arith, has_family-add_node h f a m, add_node-Unique f a m u.1)

-- The observation counts, is of family `g`, and came from node `a`.
abbrev pub seen_by : Option ℕ → FailureFamily → String → InputHealthObservation → Bool
seen_by success g a o =
    counts success o && (family_eq o.classification.family g && str_eq o.agent_id a)

module _ (success : Option ℕ) where
  pub group-Unique :
      (m : Groups) (os : List InputHealthObservation) → Unique m → Unique (group success m os)
  unfolding group
  group-Unique m [] u = u
  group-Unique m (o ∷ os) u = elim (Bool-cases (counts success o)) [
    | inl e ↦ rw e (
        group-Unique (add_node o.classification.family o.agent_id m) os
          (add_node-Unique o.classification.family o.agent_id m u))
    | inr e ↦ rw e (group-Unique m os u)
  ]

  pub contains-group :
      (g : FailureFamily) (a : String) (m : Groups) (os : List InputHealthObservation)
      → contains a (nodes_of g (group success m os))
        ≡ (contains a (nodes_of g m) || any (seen_by success g a) os)
  unfolding group
  contains-group g a m [] = ground arith
  contains-group g a m (o ∷ os) = elim (Bool-cases (counts success o)) [
    | inl e ↦
        let f = o.classification.family in
        let n = o.agent_id in
        rw e (
          rw (contains-group g a (add_node f n m) os)
            (rw (nodes_of-add_node g f n m) (ground (arith, contains-insert n a (nodes_of g m)))))
    | inr e ↦ rw e (contains-group g a m os)
  ]

  pub group-Distinct :
      (g : FailureFamily) (m : Groups) (os : List InputHealthObservation)
      → Distinct (nodes_of g m)
      → Distinct (nodes_of g (group success m os))
  unfolding group
  group-Distinct g m [] d = d
  group-Distinct g m (o ∷ os) d = elim (Bool-cases (counts success o)) [
    | inl e ↦
        let f = o.classification.family in
        let n = o.agent_id in
        rw e (
          group-Distinct g (add_node f n m) os
            (rw (nodes_of-add_node g f n m) (ground (arith, insert-Distinct n (nodes_of g m) d))))
    | inr e ↦ rw e (group-Distinct g m os d)
  ]
