-- ===== src/Tests/ScheduleTests.antt =====
-- The status of a day on concrete stops.

use travel_planner.Base.{
  ℕ, ◌≡◌, refl, String, true, Option, none, some, [], ◌∷◌, Code, codes, code_eq, if◌then◌else◌,
  show, arith,
}
use travel_planner.SchedulePage.{format_time, format_minutes}
use travel_planner.SchedulePage.Clock.{read_shown, read_clock-format_time}
use travel_planner.Types.{ItineraryWaypoint}
use travel_planner.Format.{behind}
use travel_planner.Schedule.{off_by, schedule_status, last_visited, clock_minutes, local_minutes}
use travel_planner.Tests.BoardTests.{stop}

abbrev two_texts : Code → Option ℕ
two_texts text = if code_eq text (codes "10") then some 10 else some 15

abbrev wall : String → String → ℕ × ℕ
wall instant time_zone = (9, 0)

abbrev seen : ItineraryWaypoint
seen = record (stop "a") { visited_at = some "now"; stop_duration_minutes = some 30 }

abbrev due : ItineraryWaypoint
due = record (stop "b") {
  scheduled_arrival_time = some "10:15";
  drive_seconds_from_prev = some 3000;
}

abbrev passed_by : ItineraryWaypoint
passed_by = record (stop "c") { skipped = true }

-- 9:00, a stop of 30 minutes and a drive of 50 make 10:20, against 10:15.
schedule_status_test : schedule_status two_texts wall (seen ∷ due ∷ []) "UTC" ≡ off_by (behind 5)
unfolding schedule_status last_visited clock_minutes local_minutes code_eq
schedule_status_test = refl

-- `Number` on the parts of the texts below.
abbrev parts_of_day : Code → Option ℕ
parts_of_day text =
    if code_eq text (codes "00")
    then some 0
    else if code_eq text (codes "05")
    then some 5
    else if code_eq text (codes "13")
    then some 13
    else none

format_time_test :
    (format_time parts_of_day (some (codes "00:05")) ≡ some (codes "12:05 AM"))
    × (format_time parts_of_day (some (codes "13")) ≡ some (codes "1:00 PM"))
    × (format_time parts_of_day (some (codes "noon")) ≡ none)
    × (format_time parts_of_day (some []) ≡ none)
    × (format_time parts_of_day none ≡ none)
unfolding format_time show code_eq
format_time_test = (refl, refl, refl, refl, refl)

-- 119.8 minutes: an hour and sixty minutes.
format_minutes_test : format_minutes 7188 ≡ codes "1h 60m"
unfolding format_minutes show
format_minutes_test = refl

read_clock-format_time_example :
    read_shown (format_time parts_of_day (some (codes "13:05:00"))) ≡ some (13, 5)
unfolding code_eq
read_clock-format_time_example =
    read_clock-format_time parts_of_day (codes "13:05:00") (codes "13") (codes "05")
      (codes "00" ∷ []) 13 5 refl refl refl (omega arith) (omega arith)
