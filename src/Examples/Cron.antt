-- ===== src/Examples/Cron.antt =====
-- Local times that occur twice: the iterator hands out both instants of one before the next.
use task_scheduler.Prelude.{
  ℕ, ◌+◌, ◌-◌, ◌*◌, String, Bool, true, false, ◌&&◌, ltb, leb, if◌then◌else◌, Option, some, List,
  [], ◌∷◌,
}
use task_scheduler.Cron.{CronSpec, Wall}
use task_scheduler.Cron.Ascending.{Ascending}

abbrev wall : ℕ → Wall
wall t = record { utc = t; ambiguous = false }

abbrev doubled : ℕ → Wall
doubled t = record { utc = t; ambiguous = true }

abbrev read_text : String → Option String
read_text s = some s

-- The clock of the zone is set back by an hour at the end of day 10.
abbrev change : ℕ
change = 864000000

abbrev hour : ℕ
hour = 3600000

abbrev zone_offset : String → ℕ → ℕ
zone_offset zone t = if ltb t change then 2 * hour else hour

abbrev in_second_fold : String → ℕ → Bool
in_second_fold zone t = leb change t && ltb t (change + hour)

abbrev midnight : String → ℕ → ℕ
midnight zone t = change - 22 * hour

-- From the second fold on, the iterator first hands out an instant that has passed.
abbrev values : Bool → ℕ → List Wall
values true t = doubled (t - 3) ∷ wall (t + hour) ∷ []
values false t =
    wall (t + 10) ∷ doubled (t + 48 * hour) ∷ doubled (t + 49 * hour) ∷ wall (t + 50 * hour) ∷ []

abbrev from_before : String → String → ℕ → List Wall
from_before schedule zone t = values (in_second_fold zone t) t

abbrev nightly : CronSpec
nightly = record { expression = "0 */5 * * * *"; timezone = "Europe/Vienna" }

-- Half an hour after the change, in the second fold.
abbrev given : ℕ
given = change + 1800000

abbrev first_two : List ℕ
first_two = (change + 2 * hour) ∷ (change + 3 * hour) ∷ []
