-- ===== src/Suggestions/Corridor.antt =====
-- The page for stops along the way: frontend/src/app/trips/[trip_id]/corridor/page.tsx.
-- A handler with an await is two sections, before and behind it: several discoveries can be under
-- way at once. `F` are coordinates and scores.
use travel_planner.Base.{
  ℕ, String, Bool, true, false, not, Option, none, some, List, [], ◌∷◌, if◌then◌else◌, ◌otherwise◌,
  truthy, Code, codes,
}
use travel_planner.Types.{Trip, TripMode, point_to_point, radius}
use travel_planner.Api.{Failure, Result, ok, err}
use travel_planner.Api.Message.{message}
use travel_planner.Discovery.{Quota, note_error}
use travel_planner.Suggestions.{
  SuggestionCategory, Suggestion, CacheInfo, toggle_suggestion, selected_ids,
}
use travel_planner.Suggestions.Endpoints.{CorridorOptions}
pub mod Races

pub record OnRoute (F : Type 0) : Type 0 where
  pub detour_seconds : ℕ
  pub route_fraction : F

abbrev pub CorridorSuggestion : Type 0 → Type 0
CorridorSuggestion F = Suggestion F × OnRoute F

pub record CorridorDiscoverResponse (F : Type 0) : Type 0 where
  pub suggestions : List (CorridorSuggestion F)
  pub max_detour_seconds : ℕ
  pub cached : Option Bool
  pub updated_at : Option String

pub record Page (F : Type 0) : Type 0 where
  pub trip : Option (Trip F)
  pub suggestions : List (CorridorSuggestion F)
  pub active_category : Option SuggestionCategory
  pub max_detour_minutes : ℕ
  pub discovering : Bool
  pub building_route : Bool
  pub error : Option Code
  pub initial_loading : Bool
  pub cache_info : CacheInfo
  pub sort_favourites : Bool
  pub quota : Quota
  pub on_trip_page : Bool

abbrev pub is_point_to_point : TripMode → Bool
is_point_to_point point_to_point = true
is_point_to_point radius = false

module _ {F : Type 0} where
  -- The first section of `runDiscovery`: what it asks for, and the page.
  unfoldable pub discovery_begun :
      List SuggestionCategory → Option ℕ → Bool → Page F → CorridorOptions × Page F
  discovery_begun categories detour refresh p = (
    record {
      categories = categories;
      max_detour_minutes = some (detour otherwise p.max_detour_minutes);
      refresh = refresh;
    },
    record p { discovering = true; error = none },
  )

  unfoldable pub handle_detour_change : ℕ → Page F → CorridorOptions × Page F
  unfolding discovery_begun
  handle_detour_change minutes p =
      discovery_begun [] (some minutes) false (record p { max_detour_minutes = minutes })

  unfoldable pub toggle : String → Page F → Page F
  toggle id p = record p { suggestions = toggle_suggestion id p.suggestions }

  module _ (browser : Failure → Code) where
    unfoldable pub discovery_settled : Result (CorridorDiscoverResponse F) → Page F → Page F
    discovery_settled (ok r) p = record p {
      suggestions = r.suggestions;
      cache_info = record { cached = r.cached otherwise false; updated_at = r.updated_at };
      discovering = false;
    }
    discovery_settled (err e) p =
        let (quota, paused) = note_error e p.quota in
        record p {
          quota = quota;
          error = if paused then p.error else some (message browser e);
          discovering = false;
        }

    abbrev pub first_discovery : Result (CorridorDiscoverResponse F) → Page F → Page F
    first_discovery discovered p =
        discovery_settled discovered
          (discovery_begun [] none false (record p { initial_loading = false })).1

    abbrev pub from_cache :
        Result (CorridorDiscoverResponse F) → Result (CorridorDiscoverResponse F) → Page F → Page F
    from_cache (err e) discovered p = first_discovery discovered p
    from_cache (ok r) discovered p = elim r.suggestions [
      | [] ↦ first_discovery discovered p
      | s ∷ ss ↦ record p { suggestions = s ∷ ss; initial_loading = false }
    ]

    -- The effect of the mount, with the answers to its requests, the last two if they are made.
    unfoldable pub load :
        Result (Trip F)
        → Result (CorridorDiscoverResponse F)
        → Result (CorridorDiscoverResponse F)
        → Page F
        → Page F
    load (err e) cached discovered p = record p {
      error = some (message browser e);
      initial_loading = false;
    }
    load (ok t) cached discovered p =
        let loaded = record p { trip = some t } in
        if is_point_to_point t.mode
        then if truthy t.route_polyline
          then from_cache cached discovered loaded
          else record loaded {
            error =
                some
                  (codes "Calculate a route for this trip before discovering stops along the way.");
            initial_loading = false;
          }
        else record loaded { on_trip_page = true }

    -- The ids that are sent, if any is selected.
    unfoldable pub build_route_begun : Page F → Option (List String) × Page F
    build_route_begun p = elim (selected_ids p.suggestions) [
      | [] ↦ (none, p)
      | id ∷ ids ↦ (some (id ∷ ids), record p { building_route = true; error = none })
    ]

    unfoldable pub build_route_settled : Result (Trip F) → Page F → Page F
    build_route_settled (ok t) p = record p { on_trip_page = true }
    build_route_settled (err e) p = record p {
      error = some (message browser e);
      building_route = false;
    }
