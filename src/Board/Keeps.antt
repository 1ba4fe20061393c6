-- ===== src/Board/Keeps.antt =====
-- A drag keeps the board well formed.
use travel_planner.Base.{
  ℕ, ◌≡◌, refl, String, true, Option, none, some, List, [], ◌∷◌, map, str_eq, if◌then◌else◌, arith,
  tally, find, Bool-cases, Option-cases, inl, inr, ◌∙◌,
}
use travel_planner.Types.{Itinerary, ItineraryDay, ItineraryWaypoint}
use travel_planner.Board.{
  unscheduled, is_stop, is_day, move_across, take_out, put_in, placed, taken, without, reordered,
  reorder_within, drag_update, target_container, handle_drag_over, find_waypoint_container, Over,
  DragEvent,
}
use travel_planner.Board.Counting.{IsBoard}
use travel_planner.Board.Moves.{IsContainer, days_once-take_out}
use travel_planner.Board.Conserves.{OnlyReorders, handle_drag_over-conserves}

module _ (day_id : String) where
  -- Days are neither added nor removed.
  SameDays : Itinerary → Itinerary → Type 0
  SameDays it it' = tally (is_day day_id) it'.days ≡ tally (is_day day_id) it.days

  days-put_in :
      (to : String) (w : ItineraryWaypoint) (ds : List ItineraryDay)
      → tally (is_day day_id) (map (put_in to w) ds) ≡ tally (is_day day_id) ds
  unfolding put_in
  days-put_in to w [] = refl
  days-put_in to w (d ∷ ds) = ground (arith, days-put_in to w ds)

  module _ (array_move : List ItineraryWaypoint → ℕ → ℕ → List ItineraryWaypoint) where
    days-reordered :
        (active over to : String) (ds : List ItineraryDay)
        → tally (is_day day_id) (
            map
              (λ d.
                if is_day to d
                then record d { waypoints = reordered array_move active over d.waypoints }
                else d)
              ds)
          ≡ tally (is_day day_id) ds
    days-reordered active over to [] = refl
    days-reordered active over to (d ∷ ds) = ground (arith, days-reordered active over to ds)

    days-reorder_within :
        (active over to : String) (it : Itinerary)
        → SameDays it (reorder_within array_move active over to it)
    unfolding reorder_within SameDays
    days-reorder_within active over to it = elim (Bool-cases (str_eq to unscheduled)) [
      | inl column ↦ rw column refl
      | inr day ↦ rw day (days-reordered active over to it.days)
    ]

  days-placed :
      (to : String) (w : ItineraryWaypoint) (days : List ItineraryDay)
      (rest : List ItineraryWaypoint) (it : Itinerary)
      → tally (is_day day_id) (placed to w days rest it).days ≡ tally (is_day day_id) days
  days-placed to w days rest it = elim (Bool-cases (str_eq to unscheduled)) [
    | inl column ↦ rw column refl
    | inr day ↦ rw day (days-put_in to w days)
  ]

  days-move_across : (active to : String) (it : Itinerary) → SameDays it (move_across active to it)
  unfolding move_across SameDays
  days-move_across active to it = elim (Option-cases (taken active it.days none)) [
    | inr (w, found) ↦
        rw (found, move_across)
          (days-placed to w (map (take_out active) it.days) it.unscheduled_waypoints it
            ∙ days_once-take_out active day_id it.days)
    | inl missed ↦ elim (Option-cases (find (is_stop active) it.unscheduled_waypoints)) [
      | inl nowhere ↦ rw (missed, nowhere, move_across) refl
      | inr (w, found) ↦
          rw (missed, found, move_across)
            (days-placed to w (map (take_out active) it.days)
                (without active it.unscheduled_waypoints) it
              ∙ days_once-take_out active day_id it.days)
    ]
  ]

  module _ (array_move : List ItineraryWaypoint → ℕ → ℕ → List ItineraryWaypoint) where
    days-drag_update :
        (active over : String) (from to : Option String) (it : Itinerary)
        → SameDays it (drag_update array_move active over from to it)
    unfolding drag_update SameDays
    days-drag_update active over none to it = refl
    days-drag_update active over (some from) none it = refl
    days-drag_update active over (some from) (some to) it = elim (Bool-cases (str_eq from to)) [
      | inl same ↦ rw same (unfold SameDays in days-reorder_within array_move active over to it)
      | inr other ↦ rw other (unfold SameDays in days-move_across active to it)
    ]

    days-handle_drag_over :
        (rendered it : Itinerary) (e : DragEvent)
        → SameDays it (handle_drag_over array_move (some rendered) e it)
    unfolding handle_drag_over SameDays
    days-handle_drag_over rendered it e = elim (Option-cases e.over) [
      | inl nothing ↦ rw (nothing, handle_drag_over) refl
      | inr (over, here) ↦ elim (Bool-cases (str_eq e.active over.id)) [
        | inl self ↦ rw (here, self, handle_drag_over) refl
        | inr other ↦
            rw (here, other, handle_drag_over)
              (days-drag_update e.active over.id (find_waypoint_container (some rendered) e.active)
                (target_container (some rendered) over) it)
      ]
    ]

-- A drag event on an up-to-date board on which each stop stands once and each day id names one day
-- gives such a board again, if the pointer is over a stop, over nothing, or over a container that
-- the board shows.
pub handle_drag_over-IsBoard :
    (array_move : List ItineraryWaypoint → ℕ → ℕ → List ItineraryWaypoint)
    → OnlyReorders array_move
    → (it : Itinerary) (e : DragEvent) → IsBoard it
    → ((over : Over) → e.over ≡ some over → over.is_container ≡ true → IsContainer over.id it)
    → IsBoard (handle_drag_over array_move (some it) e it)
unfolding SameDays
handle_drag_over-IsBoard array_move reorders it e board drop = record {
  stops_once = λ id.
      rw (handle_drag_over-conserves array_move reorders it e (is_stop id) board drop)
        (board.stops_once id);
  days_once = λ id. rw (days-handle_drag_over id array_move it it e) (board.days_once id);
}
