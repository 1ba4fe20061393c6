-- ===== src/Board/Conserves.antt =====
-- Dragging a stop neither loses nor duplicates one.
use travel_planner.Base.{
  ℕ, ◌≤◌, ◌<◌, ◌≡◌, refl, String, Bool, true, Option, none, some, List, [], ◌∷◌, map, str_eq,
  eq_refl, arith, if◌then◌else◌, find, find_index, any, tally, length, Bool-cases, Option-cases,
  inl, inr,
}
use travel_planner.Types.{Itinerary, ItineraryDay, ItineraryWaypoint}
use travel_planner.Board.{
  unscheduled, is_stop, is_day, holds, reordered, reorder_within, drag_update, target_container,
  handle_drag_over, find_waypoint_container, Over, DragEvent,
}
use travel_planner.Board.Counting.{count_days, count_stops, IsBoard}
use travel_planner.Board.Moves.{IsContainer, count_stops-move_across}

-- What the board relies on of `arrayMove`: within the list it only reorders.
abbrev pub OnlyReorders : (List ItineraryWaypoint → ℕ → ℕ → List ItineraryWaypoint) → Type 0
OnlyReorders array_move =
    (ws : List ItineraryWaypoint) (from to : ℕ)
    → from < length ws
    → to < length ws
    → (p : ItineraryWaypoint → Bool) → tally p (array_move ws from to) ≡ tally p ws

find_index-lt :
    (q : ItineraryWaypoint → Bool) (ws : List ItineraryWaypoint) (i : ℕ)
    → find_index q ws ≡ some i
    → i < length ws
find_index-lt q [] i e = cc
find_index-lt q (w ∷ ws) i e = elim (Bool-cases (q w)) [
  | inl here ↦ ground arith
  | inr there ↦ elim (Option-cases (find_index q ws)) [
    | inl missed ↦ ground arith
    | inr (j, found) ↦ ground (arith, find_index-lt q ws j found)
  ]
]

find-day_tally :
    (id : String) (ds : List ItineraryDay) (d : ItineraryDay)
    → find (holds id) ds ≡ some d
    → 1 ≤ tally (is_day d.id) ds
find-day_tally id [] d e = cc
find-day_tally id (x ∷ ds) d e = elim (Bool-cases (holds id x)) [
  | inl here ↦
      let same : some x ≡ some d = rw here at e in
      let found : x ≡ d = cc in rw found (ground (arith, eq_refl d.id))
  | inr there ↦ omega (arith, find-day_tally id ds d (rw there at e))
]

find_waypoint_container-IsContainer :
    (it : Itinerary) (id to : String)
    → find_waypoint_container (some it) id ≡ some to
    → IsContainer to it
unfolding find_waypoint_container
find_waypoint_container-IsContainer it id to e = elim (Option-cases (find (holds id) it.days)) [
  | inr (d, found) ↦
      let same : some d.id ≡ some to = rw (found, find_waypoint_container) at e in
      let at : d.id ≡ to = cc in inr (rw (← at) (find-day_tally id it.days d found))
  | inl missed ↦ elim (Bool-cases (any (is_stop id) it.unscheduled_waypoints)) [
    | inl column ↦
        let same : some unscheduled ≡ some to = rw (missed, column, find_waypoint_container) at e in
        let at : unscheduled ≡ to = cc in inl (rw (← at) (eq_refl unscheduled))
    | inr nowhere ↦ absurd (ground arith)
  ]
]

module _ (array_move : List ItineraryWaypoint → ℕ → ℕ → List ItineraryWaypoint)
    (reorders : OnlyReorders array_move) where
  tally-reordered :
      (p : ItineraryWaypoint → Bool) (active over : String) (ws : List ItineraryWaypoint)
      → tally p (reordered array_move active over ws) ≡ tally p ws
  unfolding reordered
  tally-reordered p active over ws = elim (Option-cases (find_index (is_stop active) ws)) [
    | inl missed ↦ rw (missed, reordered) refl
    | inr (i, old) ↦ elim (Option-cases (find_index (is_stop over) ws)) [
      | inl missed ↦ rw (old, missed, reordered) refl
      | inr (j, new) ↦
          rw (old, new, reordered)
            (reorders ws i j (find_index-lt (is_stop active) ws i old)
              (find_index-lt (is_stop over) ws j new) p)
    ]
  ]

  count_days-reordered :
      (p : ItineraryWaypoint → Bool) (active over to : String) (ds : List ItineraryDay)
      → count_days p (
          map
            (λ d.
              if is_day to d
              then record d { waypoints = reordered array_move active over d.waypoints }
              else d)
            ds)
        ≡ count_days p ds
  count_days-reordered p active over to [] = refl
  count_days-reordered p active over to (d ∷ ds) = elim (Bool-cases (is_day to d)) [
    | inl here ↦ rw here (
        omega (
          arith,
          tally-reordered p active over d.waypoints,
          count_days-reordered p active over to ds,
        ))
    | inr other ↦ rw other (omega (arith, count_days-reordered p active over to ds))
  ]

  count_stops-reorder_within :
      (p : ItineraryWaypoint → Bool) (active over to : String) (it : Itinerary)
      → count_stops p (reorder_within array_move active over to it) ≡ count_stops p it
  unfolding reorder_within
  count_stops-reorder_within p active over to it = elim (Bool-cases (str_eq to unscheduled)) [
    | inl column ↦ rw column (omega (arith, tally-reordered p active over it.unscheduled_waypoints))
    | inr day ↦ rw day (omega (arith, count_days-reordered p active over to it.days))
  ]

  count_stops-drag_update :
      (p : ItineraryWaypoint → Bool) (active over : String) (from target : Option String)
      (it : Itinerary)
      → IsBoard it
      → ((to : String) → target ≡ some to → IsContainer to it)
      → count_stops p (drag_update array_move active over from target it) ≡ count_stops p it
  unfolding drag_update
  count_stops-drag_update p active over none target it board there = refl
  count_stops-drag_update p active over (some from) none it board there = refl
  count_stops-drag_update p active over (some from) (some to) it board there =
      elim (Bool-cases (str_eq from to)) [
        | inl same ↦ rw same (count_stops-reorder_within p active over to it)
        | inr other ↦ rw other (count_stops-move_across p active to it board (there to refl))
      ]

  target_container-IsContainer :
      (it : Itinerary) (over : Over)
      → (over.is_container ≡ true → IsContainer over.id it)
      → (to : String) → target_container (some it) over ≡ some to
      → IsContainer to it
  unfolding target_container
  target_container-IsContainer it over drop to e = elim (Bool-cases over.is_container) [
    | inl column ↦
        let same : some over.id ≡ some to = rw (column, target_container) at e in
        let at : over.id ≡ to = cc in rw (← at) (drop column)
    | inr chip ↦ find_waypoint_container-IsContainer it over.id to (rw chip at e)
  ]

  -- A drag event on an up-to-date board on which each stop stands once: for every test, as many
  -- stops pass it after the update as before. So no stop is lost, duplicated or changed, whether
  -- the drag reorders a container or moves the stop to another day or to the unscheduled column.
  -- If the pointer is over a container, it must be one that the board shows.
  pub handle_drag_over-conserves :
      (it : Itinerary) (e : DragEvent) (p : ItineraryWaypoint → Bool)
      → IsBoard it
      → ((over : Over) → e.over ≡ some over → over.is_container ≡ true → IsContainer over.id it)
      → count_stops p (handle_drag_over array_move (some it) e it) ≡ count_stops p it
  unfolding handle_drag_over
  handle_drag_over-conserves it e p board drop = elim (Option-cases e.over) [
    | inl nothing ↦ rw (nothing, handle_drag_over) refl
    | inr (over, here) ↦ elim (Bool-cases (str_eq e.active over.id)) [
      | inl self ↦ rw (here, self, handle_drag_over) refl
      | inr other ↦
          rw (here, other, handle_drag_over)
            (count_stops-drag_update p e.active over.id (find_waypoint_container (some it) e.active)
              (target_container (some it) over) it board
              (target_container-IsContainer it over (drop over here)))
    ]
  ]
