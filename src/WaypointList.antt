-- ===== src/WaypointList.antt =====
-- The list of stops on the trip page: frontend/src/components/routing/WaypointList.tsx.
use travel_planner.Base.{
  ℕ, zero, suc, String, Bool, true, false, Option, none, some, List, [], ◌∷◌, map, str_eq,
  if◌then◌else◌, get_elem?, find_index, keep, not,
}
use travel_planner.Types.{Waypoint}
pub mod Reorder

module _ {A : Type 0} where
  -- `xs.splice(i, 1)`
  pub remove_at : ℕ → List A → List A
  remove_at i [] = []
  remove_at zero (x ∷ xs) = xs
  remove_at (suc i) (x ∷ xs) = x ∷ remove_at i xs

  -- `xs.splice(i, 0, x)`
  pub insert_at : ℕ → A → List A → List A
  insert_at zero x xs = x ∷ xs
  insert_at (suc i) x [] = x ∷ []
  insert_at (suc i) x (y ∷ ys) = y ∷ insert_at i x ys

  -- The two splices of `handleDragEnd`.
  unfoldable pub move_item : List A → ℕ → ℕ → List A
  unfolding remove_at insert_at
  move_item xs from to = elim (get_elem? xs from) [
    | none ↦ xs
    | some x ↦ insert_at to x (remove_at from xs)
  ]

abbrev pub is_waypoint : {F : Type 0} → String → Waypoint F → Bool
is_waypoint id w = str_eq w.id id

-- The ids that a drop hands to `onReorder`, if it does.
unfoldable pub handle_drag_end :
    {F : Type 0} → List (Waypoint F) → String → Option String → Option (List String)
handle_drag_end waypoints active none = none
handle_drag_end waypoints active (some over) =
    if str_eq active over then none else elim (find_index (is_waypoint active) waypoints) [
      | none ↦ none
      | some old ↦ elim (find_index (is_waypoint over) waypoints) [
        | none ↦ none
        | some new ↦ some (map (λ w. w.id) (move_item waypoints old new))
      ]
    ]
