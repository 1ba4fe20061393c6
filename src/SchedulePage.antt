-- ===== src/SchedulePage.antt =====
-- The times and lengths that frontend/src/app/trips/[trip_id]/schedule/page.tsx shows.
-- Minutes that may be a fraction are kept as seconds.
use travel_planner.Base.{
  ℕ, ◌+◌, ◌-◌, ◌*◌, ◌/◌, ◌%◌, ◌==◌, ltb, leb, Bool, true, false, Option, none, some, List, [], ◌∷◌,
  ◌++◌, ◌otherwise◌, if◌then◌else◌, length, Code, codes, show,
}
use travel_planner.Types.{ItineraryDay, ItineraryWaypoint}
use travel_planner.Session.{split}
pub mod Clock

-- `formatMinutes`, on the seconds of its argument: the remainder is rounded half up.
unfoldable pub format_minutes : ℕ → Code
format_minutes seconds =
    let h = seconds / 3600 in
    let m = (seconds % 3600 + 30) / 60 in
    if ltb 0 h then show h ++ codes "h " ++ show m ++ codes "m" else show m ++ codes "m"

abbrev pub drive_seconds : List ItineraryWaypoint → ℕ
drive_seconds [] = 0
drive_seconds (w ∷ ws) = (w.drive_seconds_from_prev otherwise 0) + drive_seconds ws

-- `dayTotalMinutes` in seconds: the drives, and 30 minutes for each stop.
unfoldable pub day_total : ItineraryDay → ℕ
day_total day = drive_seconds day.waypoints + length day.waypoints * (30 * 60)

-- A day is over its budget of 8 hours.
abbrev pub is_over_budget : ItineraryDay → Bool
is_over_budget day = ltb (8 * 60 * 60) (day_total day)

-- `String(m).padStart(2, "0")`
abbrev pub pad_two : Code → Code
pad_two [] = codes "00"
pad_two (c ∷ []) = codes "0" ++ c ∷ []
pad_two (c ∷ d ∷ cs) = c ∷ d ∷ cs

-- `minute` is the text behind the colon.
abbrev pub clock : (hour : ℕ) → (minute : Code) → Code
clock h minute =
    let period = if leb 12 h then codes "PM" else codes "AM" in
    let hour12 = if h % 12 == 0 then 12 else h % 12 in
    show hour12 ++ codes ":" ++ minute ++ codes " " ++ period

-- `number` is JavaScript's `Number` on the parts of a time of day, or `none` for `NaN`.
module _ (number : Code → Option ℕ) where
  -- `String(m ?? 0).padStart(2, "0")` of the parts behind the hour.
  abbrev pub minute_text : List Code → Code
  minute_text [] = pad_two (show 0)
  minute_text (part ∷ _) = elim (number part) [
    | none ↦ pad_two (codes "NaN")
    | some m ↦ pad_two (show m)
  ]

  abbrev pub of_parts : Code × List Code → Option Code
  of_parts (hour, parts) = elim (number hour) [
    | none ↦ none
    | some h ↦ some (clock h (minute_text parts))
  ]

  -- `formatTime`; 58 is the colon.
  unfoldable pub format_time : Option Code → Option Code
  format_time none = none
  format_time (some []) = none
  format_time (some (c ∷ cs)) = of_parts (split 58 (c ∷ cs))
