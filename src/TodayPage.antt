-- ===== src/TodayPage.antt =====
-- Checking in on the road: `applyLocally` and `checkIn` of
-- frontend/src/app/trips/[trip_id]/today/page.tsx.
-- Whether the browser is online, the instant and the outcome of the request are arguments of the
-- handler. The offline queue is the one of the module Queue, over any store.
use travel_planner.Base.{
  ℕ, String, Bool, true, false, Option, none, some, List, [], ◌∷◌, map, str_eq, if◌then◌else◌,
  length,
}
use travel_planner.Types.{Itinerary, ItineraryDay, ItineraryWaypoint}
use travel_planner.Board.{is_stop}
use travel_planner.Api.{Failure, network}
use travel_planner.Queue.{
  CheckInAction, arrived, skipped, undo, QueuedCheckIn, CheckInStore, enqueue_check_in,
  pending_check_ins,
}
use mathlib.Core.Option
pub mod CheckIns
pub mod Journal
pub mod Sync

-- What a stop shows of a check-in.
abbrev pub is_arrived : CheckInAction → Bool
is_arrived action = elim action [ arrived ↦ true | _ ↦ false ]

abbrev pub is_skipped : CheckInAction → Bool
is_skipped action = elim action [ skipped ↦ true | _ ↦ false ]

abbrev pub with_marks : Option String → Bool → ItineraryWaypoint → ItineraryWaypoint
with_marks visited passed w = record w { visited_at = visited; skipped = passed }

abbrev pub change_in :
    String
    → (ItineraryWaypoint → ItineraryWaypoint)
    → List ItineraryWaypoint
    → List ItineraryWaypoint
change_in stop_id f ws = map (λ w. if is_stop stop_id w then f w else w) ws

abbrev pub change_day :
    String → (ItineraryWaypoint → ItineraryWaypoint) → ItineraryDay → ItineraryDay
change_day stop_id f d = record d { waypoints = change_in stop_id f d.waypoints }

-- `setItinerary` with one stop changed.
abbrev pub change_stop :
    String → (ItineraryWaypoint → ItineraryWaypoint) → Option Itinerary → Option Itinerary
change_stop stop_id f it =
    Option.map (λ (i : Itinerary). record i { days = map (change_day stop_id f) i.days }) it

abbrev pub apply_locally : String → CheckInAction → String → Option Itinerary → Option Itinerary
apply_locally stop_id action instant it =
    change_stop stop_id
      (with_marks (if is_arrived action then some instant else none) (is_skipped action)) it

abbrev pub revert : ItineraryWaypoint → Option Itinerary → Option Itinerary
revert stop it = change_stop stop.id (with_marks stop.visited_at stop.skipped) it

pub data Toast : Type 0 where
  saved_offline : Toast
  refused : Failure → Toast

module _ (store : CheckInStore) (trip_id : String) where
  open store use {State}

  pub record Page : Type 0 where
    pub itinerary : Option Itinerary
    pub queue : State
    pub pending : ℕ
    pub toasts : List Toast

  abbrev pub item : String → CheckInAction → String → QueuedCheckIn
  item stop_id action instant = record {
    id = none;
    trip_id = trip_id;
    waypoint_id = stop_id;
    action = action;
    at = instant;
  }

  abbrev pub queued : QueuedCheckIn → Page → Page
  queued check_in p =
      let queue = enqueue_check_in store check_in p.queue in
      record p {
        queue = queue;
        pending = length (pending_check_ins store (some trip_id) queue);
        toasts = saved_offline ∷ p.toasts;
      }

  -- The catch block.
  abbrev pub caught : Failure → ItineraryWaypoint → QueuedCheckIn → Page → Page
  caught network stop check_in p = queued check_in p
  caught failure stop check_in p = record p {
    itinerary = revert stop p.itinerary;
    toasts = refused failure ∷ p.toasts;
  }

  abbrev pub posted : Option Failure → ItineraryWaypoint → QueuedCheckIn → Page → Page
  posted none stop check_in p = p
  posted (some failure) stop check_in p = caught failure stop check_in p

  unfoldable pub check_in :
      (online : Bool) (outcome : Option Failure)
      → ItineraryWaypoint
      → CheckInAction
      → String
      → Page
      → Page
  check_in online outcome stop action instant p =
      let shown = record p { itinerary = apply_locally stop.id action instant p.itinerary } in
      if online
      then posted outcome stop (item stop.id action instant) shown
      else queued (item stop.id action instant) shown
