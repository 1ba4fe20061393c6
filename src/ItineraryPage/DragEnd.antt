-- ===== src/ItineraryPage/DragEnd.antt =====
-- `handleDragEnd` of the itinerary page: what a drop sends.
use travel_planner.Base.{
  String, Bool, true, false, Option, none, some, List, [], ◌∷◌, map, str_eq, if◌then◌else◌, find,
  ◌otherwise◌, ◌||◌,
}
use travel_planner.Reply.{Reply, answered, failed}
use travel_planner.Types.{Itinerary, ItineraryDay}
use travel_planner.Board.{DragEvent, Drag, holds, unscheduled}
use travel_planner.ItineraryPage.{
  Call, assign, unassign, Server, Page, calls, toast, error_toast, load_itinerary,
}
pub mod Drops

abbrev pub drag_cleared : Page → Page
drag_cleared p = record p { drag = record p.drag { active_waypoint = none; origin = none } }

module _ (server : Server) where
  abbrev dropped : Reply (Unit {0}) → String → Page → Page
  dropped (answered _) text p = p
  dropped (failed e) text p = load_itinerary server (toast (error_toast (e otherwise text)) p)

  abbrev awaits : Call → String → Page → Page
  awaits c text p = dropped (server.send (c ∷ p.log)) text (calls c p)

  abbrev drop_unscheduled : Option String → String → Page → Page
  drop_unscheduled none active p = p
  drop_unscheduled (some origin) active p =
      if str_eq origin "" || str_eq origin unscheduled
      then p
      else awaits (unassign origin active) "Failed to unschedule waypoint" p

  abbrev drop_on : Option ItineraryDay → Option String → String → Page → Page
  drop_on none origin active p = drop_unscheduled origin active p
  drop_on (some day) origin active p =
      awaits (assign day.id (active ∷ []) (map (λ w. w.id) day.waypoints))
        "Failed to assign waypoint" p

  abbrev drop_in : Option Itinerary → Option String → String → Page → Page
  drop_in none origin active p = p
  drop_in (some it) origin active p = drop_on (find (holds active) it.days) origin active p

  pub handle_drag_end : DragEvent → Page → Page
  handle_drag_end e p = elim e.over [
    | none ↦ drag_cleared p
    | some over ↦ drop_in p.itinerary p.origin e.active (drag_cleared p)
  ]
