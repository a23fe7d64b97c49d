-- ===== src/Cron.antt =====
-- crates/scheduler-core/src/schedule.rs: the next occurrences of a cron expression in a time zone.
-- The crates cron, chrono and chrono_tz are parameters: `parse_cron` reads the specification,
-- `offset` is a zone's offset at an instant (shifted to be a number), `local_midnight` the start of
-- the local date read as UTC, and `iterate` the values of `schedule.after`, as far as they go.
pub mod Ascending
mod Rounds
pub mod Occurrences
use task_scheduler.Prelude.{
  ℕ, suc, ◌+◌, ◌-◌, String, Bool, true, false, not, ◌&&◌, Option, none, some, List, [], ◌∷◌, ◌++◌,
  ltb, ◌==◌, if◌then◌else◌, length, Result, err, ok, ◌>>=◌,
}

pub record CronSpec : Type 0 where
  pub expression : String
  pub timezone : String

-- A value of the iterator: its instant, and whether its local time is ambiguous.
pub record Wall : Type 0 where
  pub utc : ℕ
  pub ambiguous : Bool

pub data CronError : Type 0 where
  bad_expression bad_timezone : CronError

-- Duration::days(1)
abbrev pub one_day : ℕ
one_day = 86400000

abbrev pub last : List ℕ → Option ℕ
last [] = none
last (x ∷ []) = some x
last (x ∷ y ∷ xs) = last (y ∷ xs)

abbrev pub is_last : ℕ → Option ℕ → Bool
is_last x none = false
is_last x (some y) = y == x

-- occurrence > after && occurrences.last() != Some(&occurrence)
abbrev pub is_new : ℕ → ℕ → List ℕ → Bool
is_new after x occurrences = ltb after x && not (is_last x (last occurrences))

-- sort_unstable() and dedup(), one element at a time
unfoldable pub insert_sorted : ℕ → List ℕ → List ℕ
insert_sorted x [] = x ∷ []
insert_sorted x (y ∷ ys) =
    if ltb x y then x ∷ y ∷ ys else if x == y then y ∷ ys else y ∷ insert_sorted x ys

unfoldable pub sort_dedup : List ℕ → List ℕ
unfolding insert_sorted
sort_dedup [] = []
sort_dedup (x ∷ xs) = insert_sorted x (sort_dedup xs)

module _ (after count : ℕ) where
  -- The loop over the drained values; it returns when there are enough.
  unfoldable pub append_loop : List ℕ → List ℕ → List ℕ
  append_loop [] occurrences = occurrences
  append_loop (x ∷ xs) occurrences = elim (is_new after x occurrences) [
    | true ↦
        let more = occurrences ++ x ∷ [] in
        elim (length more == count) [ true ↦ more | false ↦ append_loop xs more ]
    | false ↦ append_loop xs occurrences
  ]

  unfoldable pub append_ambiguous_after : List ℕ → List ℕ → List ℕ
  unfolding append_loop sort_dedup
  append_ambiguous_after occurrences ambiguous = append_loop (sort_dedup ambiguous) occurrences

  -- The loop over the iterator, with `occurrences` and `ambiguous`.
  unfoldable pub scan : List Wall → List ℕ → List ℕ → List ℕ × List ℕ
  unfolding append_ambiguous_after
  scan [] occurrences ambiguous = (occurrences, ambiguous)
  scan (v ∷ vs) occurrences ambiguous = elim v.ambiguous [
    | true ↦ scan vs occurrences (ambiguous ++ v.utc ∷ [])
    | false ↦
        let flushed = append_ambiguous_after occurrences ambiguous in
        elim (length flushed == count) [
          | true ↦ (flushed, [])
          | false ↦ elim (is_new after v.utc flushed) [
            | true ↦
                let more = flushed ++ v.utc ∷ [] in
                elim (length more == count) [ true ↦ (more, []) | false ↦ scan vs more [] ]
            | false ↦ scan vs flushed []
          ]
        ]
  ]

  -- The rest of `next_occurrences` after the loop.
  abbrev pub finish : List ℕ × List ℕ → List ℕ
  finish (occurrences, ambiguous) = append_ambiguous_after occurrences ambiguous

-- The result for the values of the iterator.
unfoldable pub chosen : ℕ → ℕ → List Wall → Result CronError (List ℕ)
unfolding scan
chosen after count values =
    if count == 0 then ok [] else ok (finish after count (scan after count values [] []))

module _ {Zone : Type 0} (offset : Zone → ℕ → ℕ) (local_midnight : Zone → ℕ → ℕ) where
  -- Where the iteration starts: before the local date, if a fall-back is near.
  unfoldable pub scan_from : Zone → ℕ → ℕ
  scan_from zone after =
      if ltb (offset zone (after + one_day)) (offset zone (after - one_day))
      then local_midnight zone after - one_day
      else after

module _ {Schedule Zone : Type 0} (parse_schedule : String → Option Schedule)
    (parse_zone : String → Option Zone) where
  unfoldable pub parse_cron : CronSpec → Result CronError (Schedule × Zone)
  parse_cron spec = elim (parse_schedule spec.expression) [
    | none ↦ err bad_expression
    | some schedule ↦ elim (parse_zone spec.timezone) [
      | none ↦ err bad_timezone
      | some zone ↦ ok (schedule, zone)
    ]
  ]

  module _ (offset : Zone → ℕ → ℕ) (local_midnight : Zone → ℕ → ℕ)
      (iterate : Schedule → Zone → ℕ → List Wall) where
    unfoldable pub next_occurrences : CronSpec → ℕ → ℕ → Result CronError (List ℕ)
    unfolding parse_cron scan_from chosen
    next_occurrences spec after count = do
      (schedule, zone) ← parse_cron spec
      chosen after count (iterate schedule zone (scan_from offset local_midnight zone after))
