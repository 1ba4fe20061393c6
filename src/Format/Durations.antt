-- ===== src/Format/Durations.antt =====
-- How close a printed duration is, and when it reads as 60 minutes.
use travel_planner.Base.{ℕ, ◌+◌, ◌*◌, ◌%◌, ◌≤◌, ◌<◌, ◌≡◌, ◌↔◌, arith}
use travel_planner.Format.{hours, minutes}

-- The printed hours and minutes are the duration to within half a minute, but the minutes read 60
-- exactly when less than half a minute is missing to the next full hour.
pub minutes-hours :
    (seconds : ℕ)
    → (hours seconds * 3600 + minutes seconds * 60 ≤ seconds + 30)
      × (seconds < hours seconds * 3600 + minutes seconds * 60 + 30)
      × ((minutes seconds ≡ 60) ↔ (3570 ≤ seconds % 3600))
minutes-hours seconds = (omega arith, omega arith, (λ h. omega arith, λ h. omega arith))
