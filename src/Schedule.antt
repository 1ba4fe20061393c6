-- ===== src/Schedule.antt =====
-- Ahead of or behind the plan of the day: clockMinutes, localMinutes and scheduleStatus of
-- frontend/src/lib/schedule.ts. `number` is JavaScript's `Number`, `none` for NaN; `wall_clock`
-- gives hour and minute of an instant in a time zone, as the browser's Intl does.
use travel_planner.Base.{
  ℕ, ◌+◌, ◌-◌, ◌*◌, ◌/◌, ltb, String, Bool, true, false, not, ◌&&◌, Option, none, some, List, [],
  ◌∷◌, find, if◌then◌else◌, ◌otherwise◌, truthy, is_some, Code, codes,
}
use travel_planner.Types.{ItineraryWaypoint}
use travel_planner.Format.{Delta, ahead, behind}
use travel_planner.Session.{split}
pub mod Status

-- What `scheduleStatus` returns: nothing, NaN minutes, or a difference.
pub data ScheduleStatus : Type 0 where
  unknown not_a_number : ScheduleStatus
  off_by : Delta → ScheduleStatus

abbrev pub minus : ℕ → ℕ → Delta
minus a b = if ltb a b then behind (b - a) else ahead (a - b)

abbrev pub is_visited : ItineraryWaypoint → Bool
is_visited w = truthy w.visited_at

abbrev pub is_open : ItineraryWaypoint → Bool
is_open w = not (is_visited w) && not w.skipped

-- The last stop with a check-in, and the stops after it.
unfoldable pub last_visited :
    List ItineraryWaypoint → Option (ItineraryWaypoint × List ItineraryWaypoint)
last_visited [] = none
last_visited (w ∷ ws) = elim (last_visited ws) [
  | some found ↦ some found
  | none ↦ if is_visited w then some (w, ws) else none
]

-- `Math.round(seconds / 60)`, which rounds half up.
abbrev pub rounded_minutes : ℕ → ℕ
rounded_minutes seconds = (seconds + 30) / 60

module _ (number : Code → Option ℕ) (wall_clock : String → String → ℕ × ℕ) where
  unfoldable pub local_minutes : String → String → ℕ
  local_minutes iso time_zone = let (hour, minute) = wall_clock iso time_zone in hour * 60 + minute

  abbrev pub product : Option ℕ → Option ℕ → Option ℕ
  product none m = none
  product (some h) none = none
  product (some h) (some m) = some (h * 60 + m)

  -- Minutes since midnight of `HH:MM` or `HH:MM:SS`.
  unfoldable pub clock_minutes : Code → Option ℕ
  clock_minutes time =
      let (h, rest) = split 58 time in
      elim rest [ [] ↦ none | m ∷ _ ↦ product (number h) (number m) ]

  abbrev pub compared : Option String → ℕ → ScheduleStatus
  compared planned time = elim (clock_minutes (codes (planned otherwise ""))) [
    | none ↦ not_a_number
    | some minutes ↦ off_by (minus minutes time)
  ]

  -- Without a usable next stop: how early or late the last check-in was.
  abbrev pub by_arrival : ItineraryWaypoint → ℕ → ScheduleStatus
  by_arrival last arrived_at =
      if truthy last.scheduled_arrival_time
      then compared last.scheduled_arrival_time arrived_at
      else unknown

  abbrev pub by_next : ItineraryWaypoint → ℕ → Option ItineraryWaypoint → ScheduleStatus
  by_next last arrived_at none = by_arrival last arrived_at
  by_next last arrived_at (some next) = elim next.drive_seconds_from_prev [
    | none ↦ by_arrival last arrived_at
    | some drive ↦
        if truthy next.scheduled_arrival_time
        then compared next.scheduled_arrival_time
            (arrived_at + (last.stop_duration_minutes otherwise 0) + rounded_minutes drive)
        else by_arrival last arrived_at
  ]

  unfoldable pub schedule_status : List ItineraryWaypoint → String → ScheduleStatus
  schedule_status stops time_zone = elim (last_visited stops) [
    | none ↦ unknown
    | some (last, rest) ↦
        by_next last (local_minutes (last.visited_at otherwise "") time_zone) (find is_open rest)
  ]
