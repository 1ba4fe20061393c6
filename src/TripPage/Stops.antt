-- ===== src/TripPage/Stops.antt =====
-- Edits of the stops of a trip.
use travel_planner.Base.{
  ℕ, zero, suc, ◌≡◌, refl, sym, ap, ◌∙◌, String, not, Option, some, List, [], ◌∷◌, map, keep,
  str_eq, eq_iff, or_null, length, arith,
}
use travel_planner.Reply.{Reply, answered}
use travel_planner.Types.{Trip, Waypoint}
use travel_planner.WaypointList.{is_waypoint}
use travel_planner.TripPage.{
  Call, Server, Page, AddressSelection, add_waypoint, delete_waypoint, reorder, patch_label,
  patch_stop_duration, numbered, without, replaced, handle_add_waypoint, handle_delete_waypoint,
  handle_reorder, handle_update_label, handle_update_stop_duration,
}

-- The numbers from `i` on, `n` of them.
abbrev pub count_up : ℕ → ℕ → List ℕ
count_up i zero = []
count_up i (suc n) = i ∷ count_up (suc i) n

abbrev pub ids : {F : Type 0} → List (Waypoint F) → List String
ids ws = map (λ w. w.id) ws

-- Every edit of the stops that the page can ask for.
pub data Edit (F : Type 0) : Type 0 where
  adds : AddressSelection F → Edit F
  deletes : String → Edit F
  reorders : List String → Edit F
  labels : String → String → Edit F
  times : String → Option ℕ → Edit F

module _ {F : Type 0} where
  unfoldable pub edits : Server F → Edit F → Page F → Page F × Reply (Unit {0})
  edits server (adds selection) p = handle_add_waypoint server selection p
  edits server (deletes id) p = handle_delete_waypoint server id p
  edits server (reorders order) p = handle_reorder server order p
  edits server (labels id label) p = handle_update_label server id label p
  edits server (times id minutes) p = handle_update_stop_duration server id minutes p

  -- What the page asks the server for.
  abbrev pub call_of : Edit F → Call F
  call_of (adds selection) = add_waypoint selection
  call_of (deletes id) = delete_waypoint id
  call_of (reorders order) = reorder order
  call_of (labels id label) = patch_label id (or_null label)
  call_of (times id minutes) = patch_stop_duration id minutes

  length-numbered : (i : ℕ) (ws : List (Waypoint F)) → length (numbered i ws) ≡ length ws
  length-numbered i [] = refl
  length-numbered i (w ∷ ws) = ap suc (length-numbered (suc i) ws)

  position-numbered :
      (i : ℕ) (ws : List (Waypoint F))
      → map (λ w. w.position) (numbered i ws) ≡ count_up i (length ws)
  position-numbered i [] = refl
  position-numbered i (w ∷ ws) = ap (λ ps. i ∷ ps) (position-numbered (suc i) ws)

  ids-numbered : (i : ℕ) (ws : List (Waypoint F)) → ids (numbered i ws) ≡ ids ws
  ids-numbered i [] = refl
  ids-numbered i (w ∷ ws) = ap (λ is. w.id ∷ is) (ids-numbered (suc i) ws)

  ids-keep :
      (id : String) (ws : List (Waypoint F))
      → ids (keep (λ w. not (is_waypoint id w)) ws) ≡ keep (λ i. not (str_eq i id)) (ids ws)
  ids-keep id [] = refl
  ids-keep id (w ∷ ws) = ground (arith, ids-keep id ws)

  -- After a stop has been deleted, the trip shows the other stops in their old order, and their
  -- positions count up from 0 without a gap.
  pub handle_delete_waypoint-numbers :
      (server : Server F) (id : String) (p : Page F) (t : Trip F)
      → p.trip ≡ some t
      → server.done (delete_waypoint id ∷ p.log) ≡ answered tt
      → (t' : Trip F) × ((handle_delete_waypoint server id p).0.trip ≡ some t')
        × (ids t'.waypoints ≡ keep (λ i. not (str_eq i id)) (ids t.waypoints))
        × (map (λ w. w.position) t'.waypoints ≡ count_up 0 (length t'.waypoints))
  unfolding handle_delete_waypoint
  handle_delete_waypoint-numbers server id p t shown ok = (
    record t { waypoints = without id t.waypoints },
    rw ok (rw shown refl),
    ids-numbered 0 (keep (λ w. not (is_waypoint id w)) t.waypoints) ∙ ids-keep id t.waypoints,
    position-numbered 0 (keep (λ w. not (is_waypoint id w)) t.waypoints)
        ∙ sym
            (ap (count_up 0) (length-numbered 0 (keep (λ w. not (is_waypoint id w)) t.waypoints))),
  )

  ids-replaced :
      (id : String) (u : Waypoint F) (ws : List (Waypoint F))
      → u.id ≡ id
      → ids (replaced id u ws) ≡ ids ws
  ids-replaced id u [] h = refl
  ids-replaced id u (w ∷ ws) h = ground (arith, eq_iff w.id id, ids-replaced id u ws h)

  keep-replaced :
      (id : String) (u : Waypoint F) (ws : List (Waypoint F))
      → u.id ≡ id
      → keep (λ w. not (is_waypoint id w)) (replaced id u ws)
        ≡ keep (λ w. not (is_waypoint id w)) ws
  keep-replaced id u [] h = refl
  keep-replaced id u (w ∷ ws) h =
      ground (arith, eq_iff w.id id, eq_iff u.id id, keep-replaced id u ws h)

  -- The server accepts a new label and answers with the stop of that id: the trip keeps the order
  -- of its stops, and all the other stops are as they were.
  pub handle_update_label-keeps :
      (server : Server F) (id label : String) (p : Page F) (t : Trip F) (u : Waypoint F)
      → p.trip ≡ some t
      → server.waypoint (patch_label id (or_null label) ∷ p.log) ≡ answered u
      → u.id ≡ id
      → (t' : Trip F) × ((handle_update_label server id label p).0.trip ≡ some t')
        × (ids t'.waypoints ≡ ids t.waypoints)
        × (keep (λ w. not (is_waypoint id w)) t'.waypoints
            ≡ keep (λ w. not (is_waypoint id w)) t.waypoints)
  unfolding handle_update_label
  handle_update_label-keeps server id label p t u shown ok same = (
    record t { waypoints = replaced id u t.waypoints },
    rw ok (rw shown refl),
    ids-replaced id u t.waypoints same,
    keep-replaced id u t.waypoints same,
  )
