-- ===== src/Schedule/Status.antt =====
-- Which stops the status of the day depends on.
use travel_planner.Base.{
  ℕ, ◌≡◌, refl, inl, inr, String, true, Option, some, List, [], ◌∷◌, any, Bool-cases, Option-cases,
  ◌otherwise◌, Code,
}
use travel_planner.Types.{ItineraryWaypoint}
use travel_planner.Schedule.{
  ScheduleStatus, is_visited, last_visited, schedule_status, by_next, local_minutes,
}

last_visited-some :
    (ws : List ItineraryWaypoint)
    → any is_visited ws ≡ true
    → (found : ItineraryWaypoint × List ItineraryWaypoint) × (last_visited ws ≡ some found)
unfolding last_visited
last_visited-some [] h = absurd (cc)
last_visited-some (w ∷ ws) h = elim (Option-cases (last_visited ws)) [
  | inr (found, later) ↦ (found, rw later refl)
  | inl nothing ↦ elim (Bool-cases (is_visited w)) [
    | inl here ↦ ((w, ws), rw (nothing, here) refl)
    | inr other ↦
        let (found, later) = last_visited-some ws (simp other at h) in (found, rw later refl)
  ]
]

module _ (number : Code → Option ℕ) (wall_clock : String → String → ℕ × ℕ)
    (time_zone : String) where
  abbrev status : List ItineraryWaypoint → ScheduleStatus
  status ws = schedule_status number wall_clock ws time_zone

  abbrev status_of : ItineraryWaypoint → Option ItineraryWaypoint → ScheduleStatus
  status_of last next =
      by_next number wall_clock last
        (local_minutes number wall_clock (last.visited_at otherwise "") time_zone) next
