-- ===== src/Board.antt =====
-- The itinerary board: the state and the synchronous drag handlers of
-- frontend/src/app/trips/[trip_id]/itinerary/page.tsx.
-- `arrayMove` of @dnd-kit/sortable is the parameter `array_move`. A handler that reads the
-- `itinerary` of its render and then updates the state takes the former as `rendered`.
use travel_planner.Base.{
  ℕ, ◌+◌, String, Bool, true, false, Option, none, some, List, [], ◌∷◌, ◌++◌, map, not, str_eq,
  if◌then◌else◌, keep, find, find_index, any, tally, sum_by, is_some, is_none, ◌||◌,
}
use travel_planner.Types.{Itinerary, ItineraryDay, ItineraryWaypoint}
pub mod Counting
pub mod Moves
pub mod Conserves
pub mod Keeps
pub mod Drop
pub mod Places

abbrev pub unscheduled : String
unscheduled = "unscheduled"

abbrev pub is_stop : String → ItineraryWaypoint → Bool
is_stop id w = str_eq w.id id

abbrev pub is_day : String → ItineraryDay → Bool
is_day id d = str_eq d.id id

abbrev pub holds : String → ItineraryDay → Bool
holds id d = any (is_stop id) d.waypoints

-- The container of a stop: a day's id, or the sentinel.
unfoldable pub find_waypoint_container : Option Itinerary → String → Option String
find_waypoint_container none wp_id = none
find_waypoint_container (some it) wp_id = elim (find (holds wp_id) it.days) [
  | some day ↦ some day.id
  | none ↦ if any (is_stop wp_id) it.unscheduled_waypoints then some unscheduled else none
]

-- What dnd-kit reports as being under the pointer: its id, and whether its data has type "day".
pub record Over : Type 0 where
  pub id : String
  pub is_container : Bool

pub record DragEvent : Type 0 where
  pub active : String
  pub over : Option Over

-- The state that the drag handlers write.
pub record Drag : Type 0 where
  pub itinerary : Option Itinerary
  pub active_waypoint : Option ItineraryWaypoint
  pub origin : Option String

unfoldable pub handle_drag_start : String → Option ItineraryWaypoint → Drag → Drag
handle_drag_start active waypoint s = record s {
  active_waypoint = if is_some waypoint then waypoint else s.active_waypoint;
  origin = find_waypoint_container s.itinerary active;
}

pub reordered :
    (List ItineraryWaypoint → ℕ → ℕ → List ItineraryWaypoint)
    → String
    → String
    → List ItineraryWaypoint
    → List ItineraryWaypoint
reordered array_move active over ws = elim (find_index (is_stop active) ws) [
  | none ↦ ws
  | some old ↦ elim (find_index (is_stop over) ws) [ none ↦ ws | some new ↦ array_move ws old new ]
]

-- The branch for a drag within one container.
pub reorder_within :
    (List ItineraryWaypoint → ℕ → ℕ → List ItineraryWaypoint)
    → String
    → String
    → String
    → Itinerary
    → Itinerary
reorder_within array_move active over to it =
    if str_eq to unscheduled
    then record it {
      unscheduled_waypoints = reordered array_move active over it.unscheduled_waypoints;
    }
    else record it {
      days =
          map
            (λ d.
              if is_day to d
              then record d { waypoints = reordered array_move active over d.waypoints }
              else d)
            it.days;
    }

abbrev pub without : String → List ItineraryWaypoint → List ItineraryWaypoint
without id ws = keep (λ w. not (is_stop id w)) ws

-- `movedWp` after the pass over the days: the last one found.
pub taken : String → List ItineraryDay → Option ItineraryWaypoint → Option ItineraryWaypoint
taken active [] moved = moved
taken active (d ∷ ds) moved =
    taken active ds (elim (find (is_stop active) d.waypoints) [ some w ↦ some w | none ↦ moved ])

pub take_out : String → ItineraryDay → ItineraryDay
take_out active d =
    if holds active d then record d { waypoints = without active d.waypoints } else d

pub put_in : String → ItineraryWaypoint → ItineraryDay → ItineraryDay
put_in to w d = if is_day to d then record d { waypoints = d.waypoints ++ w ∷ [] } else d

abbrev pub placed :
    String → ItineraryWaypoint → List ItineraryDay → List ItineraryWaypoint → Itinerary → Itinerary
placed to w days rest it =
    if str_eq to unscheduled
    then record it { days = days; unscheduled_waypoints = rest ++ w ∷ [] }
    else record it { days = map (put_in to w) days; unscheduled_waypoints = rest }

-- The branch for a drag into another container.
pub move_across : String → String → Itinerary → Itinerary
move_across active to it =
    let days = map (take_out active) it.days in
    elim (taken active it.days none) [
      | some w ↦ placed to w days it.unscheduled_waypoints it
      | none ↦ elim (find (is_stop active) it.unscheduled_waypoints) [
        | some w ↦ placed to w days (without active it.unscheduled_waypoints) it
        | none ↦ it
      ]
    ]

pub target_container : Option Itinerary → Over → Option String
target_container rendered over =
    if over.is_container then some over.id else find_waypoint_container rendered over.id

pub drag_update :
    (List ItineraryWaypoint → ℕ → ℕ → List ItineraryWaypoint)
    → String
    → String
    → Option String
    → Option String
    → Itinerary
    → Itinerary
drag_update array_move active over none to it = it
drag_update array_move active over (some from) none it = it
drag_update array_move active over (some from) (some to) it =
    if str_eq from to then reorder_within array_move active over to it else move_across active to it

unfoldable pub handle_drag_over :
    (List ItineraryWaypoint → ℕ → ℕ → List ItineraryWaypoint)
    → Option Itinerary
    → DragEvent
    → Itinerary
    → Itinerary
handle_drag_over array_move none e it = it
handle_drag_over array_move (some rendered) e it = elim e.over [
  | none ↦ it
  | some over ↦
      if str_eq e.active over.id
      then it
      else drag_update array_move e.active over.id
          (find_waypoint_container (some rendered) e.active) (target_container (some rendered) over)
          it
]
