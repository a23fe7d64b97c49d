-- ===== src/Health/NameSet.antt =====
-- A `HashSet` of names, as the list of its members, each once.
use task_scheduler.Prelude.{
  suc, ◌≤◌, false, true, length, String, ◌≡◌, Bool, false, ◌||◌, List, [], ◌∷◌, arith, str_eq,
  eq_iff, any, if◌then◌else◌,
}

abbrev pub contains : String → List String → Bool
contains a s = any (λ b. str_eq b a) s

-- HashSet::insert
unfoldable pub insert : String → List String → List String
insert a s = if contains a s then s else a ∷ s

-- Every member once.
abbrev pub Distinct : List String → Type 0
Distinct [] = Unit
Distinct (a ∷ s) = (contains a s ≡ false) × Distinct s

pub insert-Distinct : (a : String) (s : List String) → Distinct s → Distinct (insert a s)
unfolding insert
insert-Distinct a s d = ground arith

pub contains-insert :
    (a b : String) (s : List String) → contains b (insert a s) ≡ (str_eq a b || contains b s)
unfolding insert
contains-insert a b s = ground (arith, eq_iff a b)

-- The set without one member.
remove : String → List String → List String
remove a [] = []
remove a (b ∷ s) = if str_eq b a then s else b ∷ remove a s

length-remove :
    (a : String) (s : List String) → contains a s ≡ true → suc (length (remove a s)) ≡ length s
unfolding remove
length-remove a [] h = cc
length-remove a (b ∷ s) h = ground (arith, length-remove a s)

contains-remove :
    (a b : String) (s : List String)
    → str_eq a b ≡ false
    → contains b s ≡ true
    → contains b (remove a s) ≡ true
unfolding remove
contains-remove a b [] n h = cc
contains-remove a b (c ∷ s) n h =
    ground (arith, contains-remove a b s, eq_iff a b, eq_iff c a, eq_iff c b)

-- A set whose members all lie in another has no more members than that.
pub Distinct-length :
    (xs ys : List String)
    → Distinct xs
    → ((a : String) → contains a xs ≡ true → contains a ys ≡ true)
    → length xs ≤ length ys
Distinct-length [] ys d h = omega arith
Distinct-length (x ∷ xs) ys d h = omega (
  arith,
  length-remove x ys (h x (ground (arith, eq_iff x x))),
  Distinct-length xs (remove x ys) d.1 (λ a m.
      contains-remove x a ys (ground (arith, eq_iff x a, m, d.0)) (h a (ground (arith, m)))),
)
