-- ===== src/Health/Input/Strongest.antt =====
-- The entry that `max_by_key` picks.
use task_scheduler.Prelude.{
  ℕ, ◌≤◌, String, ◌≡◌, refl, true, false, Option, none, some, List, [], ◌∷◌, arith, length, ◌⊎◌,
  inl,
}
use task_scheduler.Health.Classify.{FailureFamily}
use task_scheduler.Health.Input.Groups.{Groups, family_eq}
use task_scheduler.Health.Input.Evaluate.{InputHealthState, strongest, stronger, verdict}
use task_scheduler.Health.Input.Table.{nodes_of, has_family, Unique}

-- The result of the search that starts at `x`.
unfoldable pub champion : FailureFamily × List String → Groups → FailureFamily × List String
champion x [] = x
champion x (y ∷ m) = champion (stronger (some x) y) m

pub strongest-champion :
    (x : FailureFamily × List String) (m : Groups) → strongest (some x) m ≡ some (champion x m)
unfolding strongest champion
strongest-champion x [] = refl
strongest-champion x (y ∷ m) = strongest-champion (stronger (some x) y) m

pub champion_most :
    (x : FailureFamily × List String) (m : Groups) (g : FailureFamily)
    → (length x.1 ≤ length (champion x m).1) × (length (nodes_of g m) ≤ length (champion x m).1)
unfolding champion nodes_of
champion_most x [] g = (omega arith, omega arith)
champion_most (f, s) ((h, t) ∷ m) g =
    let rest = champion_most (stronger (some (f, s)) (h, t)) m g in ground arith

has_family-eq :
    (f g : FailureFamily) (m : Groups) → family_eq f g ≡ true → has_family f m ≡ has_family g m
unfolding has_family
has_family-eq f g [] e = refl
has_family-eq f g ((h, t) ∷ m) e = ground (arith, has_family-eq f g m)

-- `c` is `x`, or an entry of the table.
abbrev IsEntry : FailureFamily × List String → Groups → Type 0
IsEntry c m = (has_family c.0 m ≡ true) × (nodes_of c.0 m ≡ c.1)

champion_member_step :
    (x c : FailureFamily × List String) (h : FailureFamily) (t : List String) (m : Groups)
    → has_family h m ≡ false
    → (c ≡ stronger (some x) (h, t)) ⊎ IsEntry c m
    → (c ≡ x) ⊎ IsEntry c ((h, t) ∷ m)
unfolding nodes_of has_family
champion_member_step (f, s) (g, n) h t m u ih = ground (arith, has_family-eq h g m)

champion_member :
    (x : FailureFamily × List String) (m : Groups)
    → Unique m
    → (champion x m ≡ x) ⊎ IsEntry (champion x m) m
unfolding champion
champion_member x [] u = inl refl
champion_member x ((h, t) ∷ m) u =
    let y = stronger (some x) (h, t) in
    champion_member_step x (champion y m) h t m u.0 (champion_member y m u.1)

champion_entry :
    (h : FailureFamily) (t : List String) (m : Groups)
    → Unique ((h, t) ∷ m)
    → nodes_of (champion (h, t) m).0 ((h, t) ∷ m) ≡ (champion (h, t) m).1
unfolding nodes_of has_family
champion_entry h t m u =
    ground (arith, champion_member (h, t) m u.1, has_family-eq h (champion (h, t) m).0 m)

pub verdict_confirmed_nodes :
    (n : ℕ) (m : Groups)
    → Unique m
    → (verdict n (strongest none m)).state ≡ InputHealthState.confirmed
    → (g : FailureFamily) × (n ≤ length (nodes_of g m))
unfolding verdict strongest
verdict_confirmed_nodes n [] u e = cc
verdict_confirmed_nodes n ((h, t) ∷ m) u e =
    let c = champion (h, t) m in
    (c.0, ground (arith, strongest-champion (h, t) m, champion_entry h t m u))

pub verdict_enough :
    (n : ℕ) (best : Option (FailureFamily × List String))
    → 1 ≤ n
    → n ≤ (verdict n best).distinct_healthy_nodes
    → (verdict n best).state ≡ InputHealthState.confirmed
unfolding verdict
verdict_enough n none p h = absurd (omega arith)
verdict_enough n (some (f, s)) p h = ground arith
