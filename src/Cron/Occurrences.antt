-- ===== src/Cron/Occurrences.antt =====
-- What `next_occurrences` returns.
use task_scheduler.Prelude.{
  ℕ, ◌+◌, ◌-◌, ◌≤◌, ◌<◌, max, ◌≡◌, Bool, true, false, List, [], ◌∷◌, length,
}
use task_scheduler.Cron.{one_day, Wall, finish}
use task_scheduler.Cron.Ascending.{Ascending, at_most}

-- The order of the iterator's values: one whose local time is not ambiguous is later than all
-- before it, an ambiguous one later than all before it that are not.
abbrev pub Chronological : ℕ → ℕ → List Wall → Type 0
Chronological low high [] = Unit
Chronological low high (v ∷ vs) = elim v.ambiguous [
  | true ↦ (low < v.utc) × Chronological low (max high v.utc) vs
  | false ↦ (high < v.utc) × Chronological v.utc v.utc vs
]

module _ (after count : ℕ) where
  abbrev Good : ℕ → List ℕ → Type 0
  Good b occurrences = Ascending after occurrences × (at_most b occurrences ≡ true)

  abbrev Enough : ℕ → List ℕ → Type 0
  Enough b xs = Good b xs × (length xs ≤ count)

  abbrev Finished : List ℕ × List ℕ → Type 0
  Finished r = Ascending after (finish after count r) × (length (finish after count r) ≤ count)

-- What is known of a zone that is `second_fold` at the instants of a local time that are the later of
-- two: its clock has been set back within the day before and is not within the day after, and a day
-- before the local date no second fold lies.
pub record FoldsApart {Zone : Type 0} (offset : Zone → ℕ → ℕ) (local_midnight : Zone → ℕ → ℕ)
    (second_fold : Zone → ℕ → Bool) : Type 0 where
  pub set_back :
      (z : Zone) (t : ℕ) → second_fold z t ≡ true → offset z (t + one_day) < offset z (t - one_day)
  pub clear_before :
      (z : Zone) (t : ℕ)
      → offset z (t + one_day) < offset z (t - one_day)
      → second_fold z (local_midnight z t - one_day) ≡ false
