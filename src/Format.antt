-- ===== src/Format.antt =====
-- Durations as text: formatDuration of frontend/src/lib/format.ts, and describeDelta of
-- frontend/src/lib/schedule.ts. Seconds are whole numbers, as the API sends them.
use travel_planner.Base.{
  ℕ, ◌+◌, ◌-◌, ◌*◌, ◌/◌, ◌%◌, ◌==◌, ltb, Bool, true, false, Option, none, some, List, [], ◌∷◌, ◌++◌,
  if◌then◌else◌, Code, codes, show,
}
pub mod Durations

-- `Math.floor(seconds / 3600)` and `Math.round((seconds % 3600) / 60)`, which rounds half up.
abbrev pub hours : ℕ → ℕ
hours seconds = seconds / 3600

abbrev pub minutes : ℕ → ℕ
minutes seconds = (seconds % 3600 + 30) / 60

unfoldable pub format_duration : Option ℕ → Code
format_duration none = codes "—"
format_duration (some seconds) =
    if hours seconds == 0
    then show (minutes seconds) ++ codes " min"
    else if minutes seconds == 0
    then show (hours seconds) ++ codes " h"
    else show (hours seconds) ++ codes " h " ++ show (minutes seconds) ++ codes " min"

-- A difference in minutes, ahead of schedule or behind it.
pub data Delta : Type 0 where
  ahead behind : ℕ → Delta

abbrev pub size : Delta → ℕ
size (ahead n) = n
size (behind n) = n

abbrev pub side : Delta → Code
side (ahead n) = if n == 0 then codes " behind" else codes " ahead"
side (behind n) = codes " behind"

unfoldable pub describe_delta : Delta → Code
describe_delta d =
    if ltb (size d) 5
    then codes "On schedule"
    else if ltb 0 (size d / 60)
    then show (size d / 60) ++ codes " h " ++ show (size d % 60) ++ codes " min" ++ side d
    else show (size d) ++ codes " min" ++ side d
