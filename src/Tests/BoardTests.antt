-- ===== src/Tests/BoardTests.antt =====
-- A board with two days and one unscheduled stop.
use travel_planner.Base.{
  ℕ, ◌≡◌, refl, String, true, false, Option, none, some, List, [], ◌∷◌, map, arith, eq_iff, inr,
}
use travel_planner.Reply.{answered}
use travel_planner.Types.{Itinerary, ItineraryDay, ItineraryWaypoint, Waypoint}
use travel_planner.Board.{Over, handle_drag_over, find_waypoint_container, is_stop}
use travel_planner.Board.Counting.{IsBoard, count_stops}
use travel_planner.Board.Moves.{IsContainer}
use travel_planner.Board.Conserves.{OnlyReorders, handle_drag_over-conserves}
use travel_planner.Board.Drop.{over_day}
use travel_planner.Board.Places.{places, relocate, places-handle_drag_over}
use travel_planner.ItineraryPage.{Call, assign, Server, Page}
use travel_planner.ItineraryPage.Distribute.{distribute_calls}
use travel_planner.ItineraryPage.Distribute.Spread.{assigned, assigned-distribute_calls}
use travel_planner.ItineraryPage.DragEnd.{handle_drag_end}
use travel_planner.ItineraryPage.DragEnd.Drops.{dragged, handle_drag_end-assigns}
use travel_planner.WaypointList
use travel_planner.WaypointList.{move_item}
use travel_planner.WaypointList.Reorder.{tally-move_item, IsMove, handle_drag_end-moves}

abbrev pub stop : String → ItineraryWaypoint
stop id = record {
  id = id;
  label = none;
  address = "1 Main St";
  position = 0;
  day_position = none;
  scheduled_arrival_time = none;
  drive_seconds_from_prev = none;
  stop_duration_minutes = none;
  notes = none;
  visited_at = none;
  skipped = false;
}

abbrev pub day : String → List ItineraryWaypoint → ItineraryDay
day id stops = record {
  id = id;
  trip_id = "t";
  day_number = 1;
  date = none;
  title = none;
  notes = none;
  waypoints = stops;
}

abbrev pub board : Itinerary
board = record {
  trip_id = "t";
  days = day "d1" (stop "a" ∷ []) ∷ day "d2" (stop "b" ∷ []) ∷ [];
  unscheduled_waypoints = stop "c" ∷ [];
}

board-IsBoard : IsBoard board
board-IsBoard = record {
  stops_once = λ id. ground (
    arith,
    eq_iff "a" id,
    eq_iff "b" id,
    eq_iff "c" id,
    eq_iff "a" "b",
    eq_iff "a" "c",
    eq_iff "b" "c",
  );
  days_once = λ id. ground (arith, eq_iff "d1" id, eq_iff "d2" id, eq_iff "d1" "d2");
}

move_item-OnlyReorders : OnlyReorders move_item
move_item-OnlyReorders ws from to _ _ p = tally-move_item p ws from to

to_second_day :
    (over : Over)
    → (over_day "a" "d2").over ≡ some over
    → over.is_container ≡ true
    → IsContainer over.id board
to_second_day over e h =
    let same : record { id = "d2"; is_container = true } ≡ over = cc in
    rw (← same) (inr (omega arith))

handle_drag_over-conserves_example :
    count_stops (is_stop "a") (handle_drag_over move_item (some board) (over_day "a" "d2") board)
    ≡ count_stops (is_stop "a") board
handle_drag_over-conserves_example =
    handle_drag_over-conserves move_item move_item-OnlyReorders board (over_day "a" "d2")
      (is_stop "a") board-IsBoard to_second_day

places-handle_drag_over_example :
    places (handle_drag_over move_item (some board) (over_day "a" "d2") board) "b"
    ≡ relocate "a" "d2" (places board) "b"
unfolding find_waypoint_container
places-handle_drag_over_example =
    places-handle_drag_over move_item board "a" "d1" "d2" refl refl refl
      (inr (refl, (day "d2" (stop "b" ∷ []), refl, refl))) "b"

abbrev accepting : Server
accepting = record {
  post_day = λ log. answered (day "d3" []);
  itinerary = λ log. answered board;
  send = λ log. answered tt;
}

abbrev page : Itinerary → Option String → Page
page it origin = record {
  drag = record { itinerary = some it; active_waypoint = none; origin = origin };
  loading = false;
  error = none;
  distributing = false;
  optimizing_day_id = none;
  toasts = [];
  log = [];
}

handle_drag_end-assigns_example :
    (handle_drag_end accepting
      (over_day "a" "d2")
      (dragged move_item board (over_day "a" "d2") (page board (some "d1")))).log
    ≡ assign "d2" ("a" ∷ []) ("b" ∷ "a" ∷ []) ∷ []
unfolding find_waypoint_container
handle_drag_end-assigns_example =
    handle_drag_end-assigns move_item board "a" "d1" "d2" (day "d2" (stop "b" ∷ [])) refl refl refl
      refl refl refl accepting (page board (some "d1"))

assigned-distribute_calls_example :
    assigned (distribute_calls board.days ("c" ∷ "e" ∷ "f" ∷ [])) ≡ "c" ∷ "e" ∷ "f" ∷ []
assigned-distribute_calls_example =
    assigned-distribute_calls (day "d1" (stop "a" ∷ [])) (day "d2" (stop "b" ∷ []) ∷ [])
      ("c" ∷ "e" ∷ "f" ∷ []) ((refl, tt), ((refl, tt), tt))

abbrev plan : List Call
plan = distribute_calls board.days ("c" ∷ [])

distribute_test : plan ≡ assign "d1" ("c" ∷ []) ("a" ∷ "c" ∷ []) ∷ []
unfolding distribute_calls
distribute_test = refl

abbrev pub waypoint : String → Waypoint ℕ
waypoint id = record {
  id = id;
  trip_id = "t";
  position = 0;
  address = "1 Main St";
  lat = 1;
  lng = 2;
  label = none;
  stop_duration_minutes = none;
  notes = none;
  drive_seconds_from_prev = none;
  distance_meters_from_prev = none;
  place_id = none;
  itinerary_day_id = none;
  scheduled_arrival_time = none;
  visited_at = none;
  skipped = false;
  created_at = "";
}

abbrev waypoints : List (Waypoint ℕ)
waypoints = waypoint "a" ∷ waypoint "b" ∷ waypoint "c" ∷ []

list_test : WaypointList.handle_drag_end waypoints "a" (some "c") ≡ some ("b" ∷ "c" ∷ "a" ∷ [])
unfolding WaypointList.handle_drag_end move_item
list_test = refl

handle_drag_end-moves_example :
    (after : List (Waypoint ℕ)) × ("b" ∷ "c" ∷ "a" ∷ [] ≡ map (λ v. v.id) after)
    × IsMove waypoints after "a" "c"
handle_drag_end-moves_example =
    handle_drag_end-moves waypoints "a" "c" ("b" ∷ "c" ∷ "a" ∷ []) list_test
