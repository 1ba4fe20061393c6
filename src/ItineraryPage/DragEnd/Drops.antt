-- ===== src/ItineraryPage/DragEnd/Drops.antt =====
-- A drag to another day and its drop send what the board shows.
use travel_planner.Base.{
  ℕ, ◌≡◌, ◌≢◌, refl, String, false, Option, none, some, List, [], ◌∷◌, ◌++◌, map, str_eq, eq_iff,
  if◌then◌else◌, arith, find, Bool-cases, inl, inr, ap, ◌∙◌, ◌otherwise◌,
}
use mathlib.Core.List.{map-append}
use travel_planner.Reply.{Reply, answered, failed}
use travel_planner.Types.{Itinerary, ItineraryDay, ItineraryWaypoint}
use travel_planner.Board.{
  unscheduled, is_day, holds, DragEvent, Over, handle_drag_over, find_waypoint_container,
}
use travel_planner.Board.Drop.{over_day, handle_drag_over-moves, find-moved, move_across_found}
use travel_planner.ItineraryPage.{
  Call, assign, unassign, get_itinerary, Server, Page, calls, toast, error_toast, load_itinerary,
  loaded, with_itinerary,
}
use travel_planner.ItineraryPage.DragEnd.{drag_cleared, dropped, drop_on, handle_drag_end}

-- The log after a call that reloads the itinerary if it is refused.
abbrev pub sent_log : Server → Call → List Call → List Call
sent_log server c log = elim (server.send (c ∷ log)) [
  | answered _ ↦ c ∷ log
  | failed _ ↦ get_itinerary ∷ c ∷ log
]

module _ (server : Server) where
  log-loaded : (r : Reply Itinerary) (p : Page) → (loaded r p).log ≡ p.log
  log-loaded (answered it) p = refl
  log-loaded (failed e) p = refl

  log-awaits :
      (r : Reply (Unit {0})) (c : Call) (text : String) (p : Page)
      → (dropped server r text (calls c p)).log
        ≡ (elim r [ answered _ ↦ c ∷ p.log | failed _ ↦ get_itinerary ∷ c ∷ p.log ])
  unfolding load_itinerary
  log-awaits (answered _) c text p = refl
  log-awaits (failed e) c text p =
      log-loaded (server.itinerary (get_itinerary ∷ c ∷ p.log))
        (calls get_itinerary (toast (error_toast (e otherwise text)) (calls c p)))

  log-drop_on :
      (day : ItineraryDay) (origin : Option String) (active : String) (p : Page)
      → (drop_on server (some day) origin active p).log
        ≡ sent_log server (assign day.id (active ∷ []) (map (λ w. w.id) day.waypoints)) p.log
  log-drop_on day origin active p =
      log-awaits (server.send (assign day.id (active ∷ []) (map (λ w. w.id) day.waypoints) ∷ p.log))
        (assign day.id (active ∷ []) (map (λ w. w.id) day.waypoints)) "Failed to assign waypoint" p

  -- Dropping a stop on no day asks for nothing, unless the drag began on a day: then the page
  -- asks the server to take the stop off that day.
  pub handle_drag_end-unassigns :
      (it : Itinerary) (p : Page) (e : DragEvent) (over : Over) (origin : String)
      → e.over ≡ some over
      → p.itinerary ≡ some it
      → p.origin ≡ some origin
      → origin ≢ ""
      → find (holds e.active) it.days ≡ none
      → (handle_drag_end server e p).log ≡ (
          if str_eq origin unscheduled
          then p.log
          else sent_log server (unassign origin e.active) p.log)
  unfolding handle_drag_end
  handle_drag_end-unassigns it p e over origin here shown began named missed =
      let not_empty : str_eq origin "" ≡ false = ground (arith, eq_iff origin "") in
      elim (Bool-cases (str_eq origin unscheduled)) [
        | inl column ↦ simp (handle_drag_end, here, shown, began, missed, not_empty, column)
        | inr day ↦
            simp (handle_drag_end, here, shown, began, missed, not_empty, day)
              (log-awaits (server.send (unassign origin e.active ∷ p.log))
                (unassign origin e.active) "Failed to unschedule waypoint"
                (with_itinerary (some it) (drag_cleared p)))
      ]

abbrev pub dragged :
    (List ItineraryWaypoint → ℕ → ℕ → List ItineraryWaypoint) → Itinerary → DragEvent → Page → Page
dragged array_move it e p = with_itinerary (some (handle_drag_over array_move (some it) e it)) p

module _ (array_move : List ItineraryWaypoint → ℕ → ℕ → List ItineraryWaypoint) (it : Itinerary)
    (active from to : String) (t : ItineraryDay)
    (on_board : find_waypoint_container (some it) active ≡ some from)
    (leaves : str_eq from to ≡ false) (a_day : str_eq to unscheduled ≡ false)
    (not_self : str_eq active to ≡ false) (target : find (is_day to) it.days ≡ some t)
    (absent : holds active t ≡ false) where
  find-drag_over :
      find (holds active) (handle_drag_over array_move (some it) (over_day active to) it).days
      ≡ some (record t {
        waypoints = t.waypoints ++ (move_across_found active it from to on_board).0 ∷ [];
      })
  find-drag_over =
      let (w, rest, is_active, moved, kept) = move_across_found active it from to on_board in
      rw
        (handle_drag_over-moves array_move it active from to on_board leaves not_self, moved, a_day)
        (find-moved active to w is_active it.days t target absent)

  -- Dragging a stop of the board over the column of another day and dropping it there sends one
  -- request: to assign that stop to that day, in the order that the day had, with the stop at the
  -- end. If the server refuses, the itinerary is fetched again, and nothing else is sent.
  pub handle_drag_end-assigns :
      (server : Server) (p : Page)
      → (handle_drag_end server
          (over_day active to)
          (dragged array_move it (over_day active to) p)).log
        ≡ sent_log server
            (assign t.id (active ∷ []) (map (λ w. w.id) t.waypoints ++ active ∷ []))
            p.log
  unfolding handle_drag_end
  handle_drag_end-assigns server p =
      let (w, rest, is_active, moved, kept) = move_across_found active it from to on_board in
      let same : w.id ≡ active = (eq_iff w.id active).0 is_active in
      simp (handle_drag_end, find-drag_over)
        (log-drop_on server (record t { waypoints = t.waypoints ++ w ∷ [] }) p.origin active
            (drag_cleared (dragged array_move it (over_day active to) p))
          ∙ ap (λ ids. sent_log server (assign t.id (active ∷ []) ids) p.log)
              (map-append (λ v. v.id) t.waypoints (w ∷ [])
                ∙ ap (λ id. map (λ v. v.id) t.waypoints ++ id ∷ []) same))
