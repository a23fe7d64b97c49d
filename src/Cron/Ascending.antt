-- ===== src/Cron/Ascending.antt =====
-- Ascending lists of instants, sorted and extended.
use task_scheduler.Prelude.{
  ℕ, ◌≤◌, ◌<◌, ◌≡◌, refl, Bool, true, List, [], ◌∷◌, ◌++◌, arith, ltb, leb, all,
}
use task_scheduler.Cron.{insert_sorted, sort_dedup}

-- Each number is above the one before it, the first above `low`.
abbrev pub Ascending : ℕ → List ℕ → Type 0
Ascending low [] = Unit
Ascending low (x ∷ xs) = (low < x) × Ascending x xs

abbrev pub at_most : ℕ → List ℕ → Bool
at_most high xs = all (λ x. leb x high) xs

abbrev pub above : ℕ → List ℕ → Bool
above low xs = all (λ x. ltb low x) xs

pub Ascending-append :
    (low b x : ℕ) (xs : List ℕ)
    → Ascending low xs
    → at_most b xs ≡ true
    → low < x
    → b < x
    → Ascending low (xs ++ x ∷ [])
Ascending-append low b x [] a m h k = (h, tt)
Ascending-append low b x (y ∷ ys) (first, a) m h k =
    (first, Ascending-append y b x ys a (ground arith) (ground arith) k)

pub at_most-append :
    (b x : ℕ) (xs : List ℕ) → at_most b xs ≡ true → b ≤ x → at_most x (xs ++ x ∷ []) ≡ true
at_most-append b x [] m h = ground arith
at_most-append b x (y ∷ ys) m h = ground (arith, at_most-append b x ys)

pub at_most-append_within :
    (b x : ℕ) (xs : List ℕ) → at_most b xs ≡ true → x ≤ b → at_most b (xs ++ x ∷ []) ≡ true
at_most-append_within b x [] m h = ground arith
at_most-append_within b x (y ∷ ys) m h = ground (arith, at_most-append_within b x ys)

pub at_most_weaken : (b c : ℕ) (xs : List ℕ) → b ≤ c → at_most b xs ≡ true → at_most c xs ≡ true
at_most_weaken b c [] h m = refl
at_most_weaken b c (x ∷ xs) h m = ground (arith, at_most_weaken b c xs h)

pub insert-Ascending :
    (low x : ℕ) (xs : List ℕ) → low < x → Ascending low xs → Ascending low (insert_sorted x xs)
unfolding insert_sorted
insert-Ascending low x [] h a = (h, tt)
insert-Ascending low x (y ∷ ys) h (first, a) = ground (arith, insert-Ascending y x ys)

pub sort-Ascending : (low : ℕ) (xs : List ℕ) → above low xs ≡ true → Ascending low (sort_dedup xs)
unfolding sort_dedup
sort-Ascending low [] h = tt
sort-Ascending low (x ∷ xs) h =
    insert-Ascending low x (sort_dedup xs) (ground arith) (sort-Ascending low xs (ground arith))

pub at_most-insert :
    (b x : ℕ) (xs : List ℕ) → x ≤ b → at_most b xs ≡ true → at_most b (insert_sorted x xs) ≡ true
unfolding insert_sorted
at_most-insert b x [] h m = ground arith
at_most-insert b x (y ∷ ys) h m = ground (arith, at_most-insert b x ys)

pub at_most-sort : (b : ℕ) (xs : List ℕ) → at_most b xs ≡ true → at_most b (sort_dedup xs) ≡ true
unfolding sort_dedup
at_most-sort b [] m = refl
at_most-sort b (x ∷ xs) m =
    at_most-insert b x (sort_dedup xs) (ground arith) (at_most-sort b xs (ground arith))

pub above-append :
    (b x : ℕ) (xs : List ℕ) → above b xs ≡ true → b < x → above b (xs ++ x ∷ []) ≡ true
above-append b x [] m h = ground arith
above-append b x (y ∷ ys) m h = ground (arith, above-append b x ys)
