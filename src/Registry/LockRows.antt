-- ===== src/Registry/LockRows.antt =====
-- The table of locks, whose primary key is the document: what deletions and insertions do to a row.
use task_scheduler.Prelude.{
  find-append, find-update, ℕ, ◌≡◌, refl, Bool, false, not, ◌&&◌, Option, none, some, List, [], ◌∷◌,
  ◌++◌, arith, ◌==◌, if◌then◌else◌, find, update, keep, test_row,
}
use task_scheduler.Registry.Tables.{EditLock, lock_key}

-- No two locks are on one document.
abbrev pub Keyed : List EditLock → Type 0
Keyed [] = Unit
Keyed (l ∷ ls) = (find lock_key l.document_key ls ≡ none) × Keyed ls

pub keep_absent :
    (p : EditLock → Bool) (key : ℕ) (ls : List EditLock)
    → find lock_key key ls ≡ none
    → find lock_key key (keep p ls) ≡ none
unfolding find
keep_absent p key [] h = refl
keep_absent p key (l ∷ ls) h = ground (arith, keep_absent p key ls)

pub keep-Keyed : (p : EditLock → Bool) (ls : List EditLock) → Keyed ls → Keyed (keep p ls)
keep-Keyed p [] k = tt
keep-Keyed p (l ∷ ls) (fresh, k) =
    ground (arith, keep-Keyed p ls k, keep_absent p l.document_key ls fresh)

-- DELETE … WHERE document_key=? AND q, whose rest is kept by `spared`.
module _ (key : ℕ) (q spared : EditLock → Bool)
    (spares : (l : EditLock) → spared l ≡ not (l.document_key == key && q l)) where
  pub find-deleted :
      (ls : List EditLock)
      → Keyed ls
      → find lock_key key (keep spared ls)
        ≡ (if test_row q (find lock_key key ls) then none else find lock_key key ls)
  unfolding find
  find-deleted [] k = refl
  find-deleted (l ∷ ls) (fresh, k) =
      ground (arith, spares l, find-deleted ls k, keep_absent spared l.document_key ls fresh)

  pub find-spared :
      (other : ℕ) (ls : List EditLock)
      → (other == key) ≡ false
      → find lock_key other (keep spared ls) ≡ find lock_key other ls
  unfolding find
  find-spared other [] h = refl
  find-spared other (l ∷ ls) h = ground (arith, spares l, find-spared other ls h)

pub append-Keyed :
    (l : EditLock) (ls : List EditLock)
    → find lock_key l.document_key ls ≡ none
    → Keyed ls
    → Keyed (ls ++ l ∷ [])
unfolding find
append-Keyed l [] h k = (refl, tt)
append-Keyed l (m ∷ ls) h (fresh, k) = (
  ground (arith, find-append lock_key m.document_key ls l fresh),
  append-Keyed l ls (ground arith) k,
)

pub update-Keyed :
    (key : ℕ) (f : EditLock → EditLock) (ls : List EditLock)
    → ((l : EditLock) → (f l).document_key ≡ l.document_key)
    → Keyed ls
    → Keyed (update lock_key key f ls)
unfolding update find
update-Keyed key f [] same k = tt
update-Keyed key f (l ∷ ls) same (fresh, k) =
    ground (
      arith,
      same l,
      find-update lock_key key l.document_key f ls same,
      update-Keyed key f ls same k,
    )

abbrev pub or_else : {A : Type 0} → Option A → Option A → Option A
or_else none other = other
or_else (some a) other = some a

pub find-append_either :
    (key : ℕ) (ls : List EditLock) (l : EditLock)
    → find lock_key key (ls ++ l ∷ [])
      ≡ or_else (find lock_key key ls) (if l.document_key == key then some l else none)
unfolding find
find-append_either key [] l = refl
find-append_either key (m ∷ ls) l = ground (arith, find-append_either key ls l)
