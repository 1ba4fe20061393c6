-- ===== src/ItineraryPage.antt =====
-- The handlers of frontend/src/app/trips/[trip_id]/itinerary/page.tsx that talk to the API.
-- A handler runs from its first statement to its last; `log` holds the calls so far, the latest
-- first, and each answer of the server may depend on all of them. `fetch` failures and refusals
-- are the `failed` replies. The texts shown in toasts are data.
use travel_planner.Base.{
  ℕ, ◌+◌, ◌/◌, ◌%◌, String, Bool, true, false, Option, none, some, List, [], ◌∷◌, ◌++◌, map, str_eq,
  if◌then◌else◌, keep, find, any, length, slice, ltb, ◌==◌, ◌otherwise◌, trim, or_null, not, ◌||◌,
}
use travel_planner.Reply.{Reply, answered, failed}
use travel_planner.Types.{Itinerary, ItineraryDay, ItineraryWaypoint}
use travel_planner.Board.{Drag, DragEvent, unscheduled, is_day, is_stop, holds}
use Prim.Native.String.{◌++◌ as ◌++ₛ◌}
use mathlib.Core.Option
pub mod Distribute
pub mod DragEnd

pub data Call : Type 0 where
  get_itinerary add_day : Call
  assign : (day_id : String) → (waypoint_ids ordered_waypoint_ids : List String) → Call
  unassign : (day_id waypoint_id : String) → Call
  optimize delete_day : (day_id : String) → Call
  patch_notes patch_title patch_date : (day_id : String) → Option String → Call
  patch_arrival : (waypoint_id : String) → Option String → Call

-- The answers, each to the newest call of a log.
pub record Server : Type 0 where
  pub post_day : List Call → Reply ItineraryDay
  pub itinerary : List Call → Reply Itinerary
  pub send : List Call → Reply (Unit {0})

pub data Toast : Type 0 where
  error_toast : String → Toast
  distributed : (stops days : ℕ) → Toast
  reordered_day : Toast

pub record Page : Type 0 where
  pub drag : Drag
  pub open drag use *
  pub loading : Bool
  pub error : Option String
  pub distributing : Bool
  pub optimizing_day_id : Option String
  pub toasts : List Toast
  pub log : List Call

abbrev pub with_itinerary : Option Itinerary → Page → Page
with_itinerary it p = record p { drag = record p.drag { itinerary = it } }

abbrev pub toast : Toast → Page → Page
toast t p = record p { toasts = t ∷ p.toasts }

abbrev pub calls : Call → Page → Page
calls c p = record p { log = c ∷ p.log }

abbrev pub loaded : Reply Itinerary → Page → Page
loaded (answered it) p = record (with_itinerary (some it) p) { loading = false }
loaded (failed e) p = record p {
  error = some (e otherwise "Failed to load itinerary");
  loading = false;
}

-- Changes the day with an id, and leaves the others.
abbrev pub on_day : String → (ItineraryDay → ItineraryDay) → Page → Page
on_day id f p = elim p.itinerary [
  | none ↦ p
  | some it ↦
      with_itinerary (some (record it { days = map (λ d. if is_day id d then f d else d) it.days }))
        p
]

abbrev pub arrive : String → Option String → ItineraryWaypoint → ItineraryWaypoint
arrive waypoint_id arrival w =
    if is_stop waypoint_id w then record w { scheduled_arrival_time = arrival } else w

abbrev pub arrive_day : String → Option String → ItineraryDay → ItineraryDay
arrive_day waypoint_id arrival d = record d {
  waypoints = map (arrive waypoint_id arrival) d.waypoints;
}

abbrev pub with_arrival : String → Option String → Page → Page
with_arrival waypoint_id arrival p = elim p.itinerary [
  | none ↦ p
  | some it ↦
      with_itinerary (some (record it { days = map (arrive_day waypoint_id arrival) it.days })) p
]

module _ (server : Server) where
  pub load_itinerary : Page → Page
  load_itinerary p = loaded (server.itinerary (get_itinerary ∷ p.log)) (calls get_itinerary p)

  -- `catch (err) { toast.error(…); await loadItinerary(); }`
  abbrev toast_and_reload : Option String → String → Page → Page
  toast_and_reload e text p = load_itinerary (toast (error_toast (e otherwise text)) p)

  -- `await` a call that answers nothing of interest.
  abbrev awaits : Call → Page → Reply (Unit {0})
  awaits c p = server.send (c ∷ p.log)

  abbrev reload_after : Reply (Unit {0}) → String → Page → Page
  reload_after (answered _) text p = load_itinerary p
  reload_after (failed e) text p = toast_and_reload e text p

  abbrev added_day : Reply ItineraryDay → Itinerary → Page → Page × Option ItineraryDay
  added_day (answered day) it p =
      let created = record day { waypoints = [] } in
      (with_itinerary (some (record it { days = it.days ++ created ∷ [] })) p, some created)
  added_day (failed e) it p = (toast (error_toast (e otherwise "Failed to add day")) p, none)

  pub handle_add_day : Page → Page × Option ItineraryDay
  handle_add_day p = elim p.itinerary [
    | none ↦ (p, none)
    | some it ↦ added_day (server.post_day (add_day ∷ p.log)) it (calls add_day p)
  ]

  pub handle_assign_to_day : String → String → Page → Page
  handle_assign_to_day waypoint_id day_id p = elim p.itinerary [
    | none ↦ p
    | some it ↦ elim (find (is_day day_id) it.days) [
      | none ↦ p
      | some target ↦
          let c : Call =
            assign day_id (waypoint_id ∷ [])
              (map (λ w. w.id) target.waypoints ++ waypoint_id ∷ []) in
          reload_after (awaits c p) "Failed to assign stop" (calls c p)
    ]
  ]

  abbrev assign_created : String → Option ItineraryDay → Page → Page
  assign_created waypoint_id none p = p
  assign_created waypoint_id (some day) p =
      let c : Call = assign day.id (waypoint_id ∷ []) (waypoint_id ∷ []) in
      reload_after (awaits c p) "Failed to assign stop" (calls c p)

  pub handle_assign_to_new_day : String → Page → Page
  unfolding handle_add_day
  handle_assign_to_new_day waypoint_id p =
      let (p', day) = handle_add_day p in assign_created waypoint_id day p'

  pub handle_unassign : String → String → Page → Page
  handle_unassign waypoint_id from_day_id p =
      let c : Call = unassign from_day_id waypoint_id in
      reload_after (awaits c p) "Failed to unschedule stop" (calls c p)

  abbrev optimized : Reply (Unit {0}) → Page → Page
  optimized (answered _) p = toast reordered_day (load_itinerary p)
  optimized (failed e) p = toast (error_toast (e otherwise "Failed to optimize day")) p

  pub handle_optimize_day : String → Page → Page
  handle_optimize_day day_id p =
      let c : Call = optimize day_id in
      let started = record p { optimizing_day_id = some day_id } in
      record (optimized (awaits c started) (calls c started)) { optimizing_day_id = none }

  -- The patch of a day: on success the state takes the value sent, on failure nothing changes.
  abbrev patched : Reply (Unit {0}) → String → (ItineraryDay → ItineraryDay) → String → Page → Page
  patched (answered _) id f text p = on_day id f p
  patched (failed e) id f text p = toast (error_toast (e otherwise text)) p

  pub handle_update_notes : String → String → Page → Page
  handle_update_notes day_id notes p =
      let value = or_null (trim notes) in
      let c : Call = patch_notes day_id value in
      patched (awaits c p) day_id (λ d. record d { notes = value }) "Failed to save notes"
        (calls c p)

  pub handle_update_title : String → String → Page → Page
  handle_update_title day_id title p =
      let c : Call = patch_title day_id (or_null title) in
      patched (awaits c p) day_id (λ d. record d { title = or_null title })
        "Failed to update day title" (calls c p)

  pub handle_update_date : String → String → Page → Page
  handle_update_date day_id date p =
      let c : Call = patch_date day_id (or_null date) in
      patched (awaits c p) day_id (λ d. record d { date = or_null date })
        "Failed to update day date" (calls c p)

  -- `ok` is the answer to the confirmation dialog.
  pub handle_delete_day : Bool → String → Page → Page
  handle_delete_day ok day_id p = elim p.itinerary [
    | none ↦ p
    | some it ↦
        let c : Call = delete_day day_id in
        if ok then reload_after (awaits c p) "Failed to delete day" (calls c p) else p
  ]

  pub handle_update_arrival_time : String → String → Page → Page
  handle_update_arrival_time waypoint_id time p =
      let arrival = Option.map (λ (t : String). t ++ₛ ":00") (or_null time) in
      let c : Call = patch_arrival waypoint_id arrival in
      let shown = with_arrival waypoint_id arrival p in
      elim (awaits c shown) [
        | answered _ ↦ calls c shown
        | failed e ↦ toast_and_reload e "Failed to update arrival time" (calls c shown)
      ]
