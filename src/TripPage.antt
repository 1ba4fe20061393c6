-- ===== src/TripPage.antt =====
-- The page of a trip: frontend/src/app/trips/[trip_id]/page.tsx.
-- A handler runs from its first statement to its last; `log` holds the calls so far, the latest
-- first, and an answer of the server may depend on all of them. The 500 ms timer is the flag
-- `recalc_waits`, and its firing is `fire_recalc`. Exporting a file and saving for offline are
-- left out.
use travel_planner.Base.{
  ℕ, zero, suc, String, Bool, true, false, not, Option, none, some, List, [], ◌∷◌, ◌++◌, map, keep,
  str_eq, trim, or_null, if◌then◌else◌, ◌otherwise◌, ltb, ◌||◌,
}
use travel_planner.Reply.{Reply, answered, failed}
use travel_planner.Types.{
  Trip, TripMode, point_to_point, radius, TripRole, owner, editor, viewer, TripStatus, completed,
  Waypoint,
}
use travel_planner.WaypointList.{is_waypoint}
pub mod Stops

pub record AddressSelection (F : Type 0) : Type 0 where
  pub address : String
  pub lat : F
  pub lng : F
  pub place_id : Option String

pub data Call (F : Type 0) : Type 0 where
  get_trip calculate_route delete_trip complete_trip : Call F
  patch_trip_title : String → Call F
  add_waypoint : AddressSelection F → Call F
  delete_waypoint : String → Call F
  reorder : List String → Call F
  patch_label : String → Option String → Call F
  patch_stop_duration : String → Option ℕ → Call F

pub record Server (F : Type 0) : Type 0 where
  pub trip : List (Call F) → Reply (Trip F)
  pub waypoint : List (Call F) → Reply (Waypoint F)
  pub waypoints : List (Call F) → Reply (List (Waypoint F))
  pub done : List (Call F) → Reply (Unit {0})

pub record Page (F : Type 0) : Type 0 where
  pub trip : Option (Trip F)
  pub loading : Bool
  pub error : Option String
  pub route_error : Option String
  pub draft_title : String
  pub editing_title : Bool
  pub recalc_waits : Bool
  pub error_toasts : List String
  pub on_trip_list : Bool
  pub log : List (Call F)

module _ {F : Type 0} where
  -- What this person may do.
  abbrev role : Option (Trip F) → TripRole
  role none = owner
  role (some t) = t.my_role

  pub is_owner : Option (Trip F) → Bool
  is_owner t = elim (role t) [ owner ↦ true | _ ↦ false ]

  pub can_edit : Option (Trip F) → Bool
  can_edit t = elim (role t) [ viewer ↦ false | _ ↦ true ]

  pub shared : Option (Trip F) → Bool
  shared none = false
  shared (some t) = ltb 0 t.member_count || not (is_owner (some t))

  abbrev pub calls : Call F → Page F → Page F
  calls c p = record p { log = c ∷ p.log }

  abbrev pub is_routed : Trip F → Bool
  is_routed t = elim (t.mode) [ point_to_point ↦ true | radius ↦ false ]

  -- `setTrip` with an edited list of stops, then `scheduleRecalc`.
  abbrev pub edit_stops : (List (Waypoint F) → List (Waypoint F)) → Page F → Page F
  edit_stops f p = elim p.trip [
    | none ↦ p
    | some t ↦ record p {
      trip = some (record t { waypoints = f t.waypoints });
      recalc_waits = if is_routed t then true else p.recalc_waits;
    }
  ]

  -- `map((w, i) => ({ ...w, position: i }))`, from position `i` on.
  abbrev pub numbered : ℕ → List (Waypoint F) → List (Waypoint F)
  numbered i [] = []
  numbered i (w ∷ ws) = record w { position = i } ∷ numbered (suc i) ws

  abbrev pub without : String → List (Waypoint F) → List (Waypoint F)
  without id ws = numbered 0 (keep (λ w. not (is_waypoint id w)) ws)

  abbrev pub replaced : String → Waypoint F → List (Waypoint F) → List (Waypoint F)
  replaced id updated ws = map (λ w. if is_waypoint id w then updated else w) ws

  abbrev pub replace_stop : String → Waypoint F → Page F → Page F
  replace_stop id updated p = elim p.trip [
    | none ↦ p
    | some t ↦ record p { trip = some (record t { waypoints = replaced id updated t.waypoints }) }
  ]

  -- What the await of a stop's call leaves: the page, and the error that the handler throws.
  abbrev pub settled :
      {A : Type 0} → Reply A → (A → Page F → Page F) → Page F → Page F × Reply (Unit {0})
  settled (answered a) f p = (f a p, answered tt)
  settled (failed e) f p = (p, failed e)

  abbrev pub loaded : Reply (Trip F) → Page F → Page F
  loaded (answered t) p = record p { trip = some t; draft_title = t.title; loading = false }
  loaded (failed e) p = record p {
    error = some (e otherwise "Failed to load trip");
    loading = false;
  }

  abbrev pub recalculated : Reply (Trip F) → Page F → Page F
  recalculated (answered t) p = record p { trip = some t; route_error = none }
  recalculated (failed e) p = record p {
    route_error = some (e otherwise "Route calculation failed");
  }

  abbrev renamed : Reply (Trip F) → Page F → Page F
  renamed (answered t) p = record p { trip = some t; editing_title = false }
  renamed (failed e) p = p

  abbrev deleted : Reply (Unit {0}) → Page F → Page F
  deleted (answered _) p = record p { on_trip_list = true }
  deleted (failed e) p = record p {
    error_toasts = (e otherwise "Failed to delete trip") ∷ p.error_toasts;
  }

  abbrev marked : Reply (Trip F) → Page F → Page F
  marked (answered updated) p = elim p.trip [
    | none ↦ p
    | some t ↦ record p {
      trip = some (record t { status = updated.status; ended = false; in_progress = false });
    }
  ]
  marked (failed e) p = record p {
    error_toasts = (e otherwise "Couldn't update the trip") ∷ p.error_toasts;
  }

  module _ (server : Server F) where
    pub load : Page F → Page F
    load p = loaded (server.trip (get_trip ∷ p.log)) (calls get_trip p)

    abbrev calculate : Page F → Page F
    calculate p =
        recalculated (server.trip (calculate_route ∷ p.log))
          (calls calculate_route (record p { route_error = none }))

    unfoldable pub fire_recalc : Page F → Page F
    fire_recalc p = if p.recalc_waits then calculate (record p { recalc_waits = false }) else p

    pub handle_recalculate : Page F → Page F
    handle_recalculate p = elim p.trip [ none ↦ p | some t ↦ calculate p ]

    pub handle_save_title : Page F → Page F
    handle_save_title p = elim p.trip [
      | none ↦ p
      | some t ↦
          let title = trim p.draft_title in
          if str_eq title ""
          then p
          else renamed (server.trip (patch_trip_title title ∷ p.log))
              (calls (patch_trip_title title) p)
    ]

    -- `ok` is the answer to the confirmation dialog.
    pub handle_delete_trip : Bool → Page F → Page F
    handle_delete_trip ok p =
        if ok then deleted (server.done (delete_trip ∷ p.log)) (calls delete_trip p) else p

    pub handle_mark_complete : Page F → Page F
    handle_mark_complete p = marked (server.trip (complete_trip ∷ p.log)) (calls complete_trip p)

    unfoldable pub handle_add_waypoint : AddressSelection F → Page F → Page F × Reply (Unit {0})
    handle_add_waypoint selection p =
        settled (server.waypoint (add_waypoint selection ∷ p.log))
          (λ w. edit_stops (λ ws. ws ++ w ∷ [])) (calls (add_waypoint selection) p)

    unfoldable pub handle_delete_waypoint : String → Page F → Page F × Reply (Unit {0})
    handle_delete_waypoint id p =
        settled (server.done (delete_waypoint id ∷ p.log)) (λ _. edit_stops (without id))
          (calls (delete_waypoint id) p)

    unfoldable pub handle_reorder : List String → Page F → Page F × Reply (Unit {0})
    handle_reorder ids p =
        settled (server.waypoints (reorder ids ∷ p.log)) (λ ws. edit_stops (λ _. ws))
          (calls (reorder ids) p)

    unfoldable pub handle_update_label : String → String → Page F → Page F × Reply (Unit {0})
    handle_update_label id label p =
        settled (server.waypoint (patch_label id (or_null label) ∷ p.log)) (replace_stop id)
          (calls (patch_label id (or_null label)) p)

    unfoldable pub handle_update_stop_duration :
        String → Option ℕ → Page F → Page F × Reply (Unit {0})
    handle_update_stop_duration id minutes p =
        settled (server.waypoint (patch_stop_duration id minutes ∷ p.log)) (replace_stop id)
          (calls (patch_stop_duration id minutes) p)
