-- ===== src/Prelude/Rows.antt =====
-- A SQL table with a primary key: the list of its rows in the order of insertion. As no two rows
-- share a key, a statement `WHERE id=?` touches the first row with that key, or none.
use Prim.Native.Nat.{ℕ, ◌+◌}
use mathlib.Core.Path.{◌≡◌, refl}
use mathlib.Core.Bool.{Bool, false}
use mathlib.Core.Option.{Option, none, some}
use mathlib.Core.List.{List, [], ◌∷◌, ◌++◌}
use native.Mathlib.Omega.{arith}
use task_scheduler.Prelude.Tests.{◌==◌, if◌then◌else◌}

abbrev pub test_row : {A : Type 0} → (A → Bool) → Option A → Bool
test_row p none = false
test_row p (some x) = p x

module _ {A : Type 0} (key : A → ℕ) where
  -- SELECT … WHERE id=?
  unfoldable pub find : ℕ → List A → Option A
  find k [] = none
  find k (x ∷ xs) = if key x == k then some x else find k xs

  -- UPDATE … WHERE id=?
  unfoldable pub update : ℕ → (A → A) → List A → List A
  update k f [] = []
  update k f (x ∷ xs) = if key x == k then f x ∷ xs else x ∷ update k f xs

  -- `rows_affected() == 1` of an UPDATE … WHERE id=? AND p
  unfoldable pub matched : ℕ → (A → Bool) → List A → Bool
  matched k p xs = test_row p (find k xs)

  -- UPDATE … WHERE id=? AND p
  unfoldable pub update_where : ℕ → (A → Bool) → (A → A) → List A → List A
  update_where k p f xs = update k (λ x. if p x then f x else x) xs

-- UPDATE … WHERE p, of any number of rows
unfoldable pub update_all : {A : Type 0} → (A → Bool) → (A → A) → List A → List A
update_all p f [] = []
update_all p f (x ∷ xs) = (if p x then f x else x) ∷ update_all p f xs

-- SELECT SUM(w)
unfoldable pub total : {A : Type 0} → (A → ℕ) → List A → ℕ
total w [] = 0
total w (x ∷ xs) = w x + total w xs

abbrev pub map_row : {A : Type 0} → (A → A) → Option A → Option A
map_row f none = none
map_row f (some x) = some (f x)

module _ {A : Type 0} (key : A → ℕ) where
  -- An update that keeps the key changes the row with that key and no other.
  pub find-update :
      (k j : ℕ) (f : A → A) (xs : List A)
      → ((x : A) → key (f x) ≡ key x)
      → find key j (update key k f xs)
        ≡ (if k == j then map_row f (find key j xs) else find key j xs)
  unfolding find update
  find-update k j f [] h = ground arith
  find-update k j f (x ∷ xs) h = ground (arith, h x, find-update k j f xs h)

  pub find-updated :
      (k : ℕ) (f : A → A) (xs : List A) (x : A)
      → ((y : A) → key (f y) ≡ key y)
      → find key k xs ≡ some x
      → find key k (update key k f xs) ≡ some (f x)
  unfolding find update
  find-updated k f [] x same h = cc
  find-updated k f (y ∷ xs) x same h = ground (arith, same y, find-updated k f xs x same)

  -- An update that does not change the row with its key changes nothing.
  pub update_fixed :
      (k : ℕ) (f : A → A) (xs : List A) (x : A)
      → find key k xs ≡ some x
      → f x ≡ x
      → update key k f xs ≡ xs
  unfolding find update
  update_fixed k f [] x h e = refl
  update_fixed k f (y ∷ xs) x h e = ground (arith, update_fixed k f xs x)

  pub find-append :
      (j : ℕ) (xs : List A) (y : A)
      → find key j xs ≡ none
      → find key j (xs ++ y ∷ []) ≡ (if key y == j then some y else none)
  unfolding find
  find-append j [] y h = refl
  find-append j (x ∷ xs) y h = ground (arith, find-append j xs y)

  pub find-append_some :
      (j : ℕ) (xs : List A) (y x : A) → find key j xs ≡ some x → find key j (xs ++ y ∷ []) ≡ some x
  unfolding find
  find-append_some j [] y z h = cc
  find-append_some j (x ∷ xs) y z h = ground (arith, find-append_some j xs y z)

  -- The row that a SELECT finds has the key that was asked for.
  pub find-key : (k : ℕ) (xs : List A) (x : A) → find key k xs ≡ some x → key x ≡ k
  unfolding find
  find-key k [] x h = cc
  find-key k (y ∷ xs) x h = ground (arith, find-key k xs x)

  -- What an update of one row does to a sum over the table.
  pub total-update :
      (w : A → ℕ) (k : ℕ) (f : A → A) (xs : List A) (x : A)
      → find key k xs ≡ some x
      → total w (update key k f xs) + w x ≡ total w xs + w (f x)
  unfolding find update total
  total-update w k f [] x h = cc
  total-update w k f (y ∷ xs) x h = ground (arith, total-update w k f xs x)

  -- An update whose key is missing changes nothing.
  pub update-none :
      (k : ℕ) (f : A → A) (xs : List A) → find key k xs ≡ none → update key k f xs ≡ xs
  unfolding find update
  update-none k f [] h = refl
  update-none k f (x ∷ xs) h = ground (arith, update-none k f xs)

module _ {A : Type 0} (key : A → ℕ) where
  pub find-update_all :
      (j : ℕ) (p : A → Bool) (f : A → A) (xs : List A)
      → ((x : A) → key (f x) ≡ key x)
      → find key j (update_all p f xs) ≡ map_row (λ x. if p x then f x else x) (find key j xs)
  unfolding find update_all
  find-update_all j p f [] h = refl
  find-update_all j p f (x ∷ xs) h = ground (arith, h x, find-update_all j p f xs h)

pub total-append :
    {A : Type 0} (w : A → ℕ) (xs : List A) (y : A) → total w (xs ++ y ∷ []) ≡ total w xs + w y
unfolding total
total-append w [] y = omega arith
total-append w (x ∷ xs) y = omega (arith, total-append w xs y)
