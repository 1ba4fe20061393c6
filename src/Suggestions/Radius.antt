-- ===== src/Suggestions/Radius.antt =====
-- The page for places around the start: frontend/src/app/trips/[trip_id]/discover/page.tsx.
-- A handler with an await is two sections, before and behind it. `browser` gives the messages of
-- the browser's own errors, `F` are coordinates and scores, `G` are polygons.
use travel_planner.Base.{
  ℕ, suc, String, Bool, true, false, not, Option, none, some, List, [], ◌∷◌, if◌then◌else◌,
  ◌otherwise◌, Code, codes, length,
}
use travel_planner.Base.Int.{ℤ, pos, negsuc}
use travel_planner.Types.{Trip, TripMode, point_to_point, radius}
use travel_planner.Api.{Failure, Result, ok, err}
use travel_planner.Api.Message.{message}
use travel_planner.Discovery.{Quota, note_error}
use travel_planner.Suggestions.{
  SuggestionCategory, Suggestion, CacheInfo, toggle_suggestion, selected_ids,
}
pub mod Loading

pub record FromStart : Type 0 where
  pub drive_seconds_from_start : ℕ
  pub distance_meters_from_start : ℕ

abbrev pub RadiusSuggestion : Type 0 → Type 0
RadiusSuggestion F = Suggestion F × FromStart

-- `isochrone_geojson` is `none` where the object has no coordinates.
pub record RadiusDiscoverResponse (F : Type 0) (G : Type 0) : Type 0 where
  pub isochrone_geojson : Option G
  pub suggestions : List (RadiusSuggestion F)
  pub cached : Option Bool
  pub updated_at : Option String

pub record ItineraryBuildOut : Type 0 where
  pub budget_minutes : ℕ
  pub within_budget : Bool
  pub over_under_minutes : ℤ
  pub dropped_suggestion_ids : List String

-- The feedback with its numbers; the source makes sentences of them.
pub data Feedback : Type 0 where
  dropped : (stops budget slack : ℕ) → Feedback
  fits : (budget slack : ℕ) → Feedback
  exceeds : (budget : ℕ) → (over : ℤ) → Feedback

pub record Page (F : Type 0) (G : Type 0) : Type 0 where
  pub trip : Option (Trip F)
  pub suggestions : List (RadiusSuggestion F)
  pub isochrone : Option G
  pub active_category : Option SuggestionCategory
  pub discovering : Bool
  pub building_route : Bool
  pub building_itinerary : Bool
  pub error : Option Code
  pub itinerary_feedback : Option Feedback
  pub initial_loading : Bool
  pub cache_info : CacheInfo
  pub sort_favourites : Bool
  pub quota : Quota
  pub on_trip_page : Bool
  pub trip_page_waits : Bool

abbrev pub magnitude : ℤ → ℕ
magnitude (pos n) = n
magnitude (negsuc n) = suc n

abbrev pub feedback_of : ItineraryBuildOut → Feedback
feedback_of r =
    if r.within_budget
    then elim r.dropped_suggestion_ids [
      | [] ↦ fits r.budget_minutes (magnitude r.over_under_minutes)
      | id ∷ ids ↦ dropped (length (id ∷ ids)) r.budget_minutes (magnitude r.over_under_minutes)
    ]
    else exceeds r.budget_minutes r.over_under_minutes

abbrev pub is_radius : TripMode → Bool
is_radius point_to_point = false
is_radius radius = true

module _ {F : Type 0} {G : Type 0} where
  abbrev pub with_isochrone : Option G → Page F G → Page F G
  with_isochrone none p = p
  with_isochrone (some g) p = record p { isochrone = some g }

  unfoldable pub toggle : String → Page F G → Page F G
  toggle id p = record p { suggestions = toggle_suggestion id p.suggestions }

  abbrev pub choose_category : Option SuggestionCategory → Page F G → Page F G
  choose_category c p = record p { active_category = c }

  unfoldable pub discovery_begun : Page F G → Page F G
  discovery_begun p = record p { discovering = true; error = none }

  module _ (browser : Failure → Code) where
    unfoldable pub discovery_settled : Result (RadiusDiscoverResponse F G) → Page F G → Page F G
    discovery_settled (ok r) p = with_isochrone r.isochrone_geojson (record p {
      suggestions = r.suggestions;
      cache_info = record { cached = r.cached otherwise false; updated_at = r.updated_at };
      discovering = false;
    })
    discovery_settled (err e) p =
        let (quota, paused) = note_error e p.quota in
        record p {
          quota = quota;
          error = if paused then p.error else some (message browser e);
          discovering = false;
        }

    abbrev pub first_discovery : Result (RadiusDiscoverResponse F G) → Page F G → Page F G
    first_discovery discovered p =
        discovery_settled discovered (discovery_begun (record p { initial_loading = false }))

    -- With what was found earlier, or with a discovery if that is nothing or fails.
    abbrev pub from_cache :
        Result (RadiusDiscoverResponse F G)
        → Result (RadiusDiscoverResponse F G)
        → Page F G
        → Page F G
    from_cache (err e) discovered p = first_discovery discovered p
    from_cache (ok r) discovered p = elim r.suggestions [
      | [] ↦ first_discovery discovered p
      | s ∷ ss ↦ record (with_isochrone r.isochrone_geojson (record p { suggestions = s ∷ ss })) {
        initial_loading = false;
      }
    ]

    -- The effect of the mount, with the answers to its requests, the last two if they are made.
    unfoldable pub load :
        Result (Trip F)
        → Result (RadiusDiscoverResponse F G)
        → Result (RadiusDiscoverResponse F G)
        → Page F G
        → Page F G
    load (err e) cached discovered p = record p {
      error = some (message browser e);
      initial_loading = false;
    }
    load (ok t) cached discovered p =
        let loaded = record p { trip = some t } in
        if is_radius t.mode
        then from_cache cached discovered loaded
        else record loaded { on_trip_page = true }

    -- The ids that are sent, if any is selected.
    unfoldable pub build_route_begun : Page F G → Option (List String) × Page F G
    build_route_begun p = elim (selected_ids p.suggestions) [
      | [] ↦ (none, p)
      | id ∷ ids ↦ (some (id ∷ ids), record p { building_route = true; error = none })
    ]

    unfoldable pub build_route_settled : Result (Trip F) → Page F G → Page F G
    build_route_settled (ok t) p = record p { on_trip_page = true }
    build_route_settled (err e) p = record p {
      error = some (message browser e);
      building_route = false;
    }

    unfoldable pub build_itinerary_begun : Page F G → Option (List String) × Page F G
    build_itinerary_begun p = elim (selected_ids p.suggestions) [
      | [] ↦ (none, p)
      | id ∷ ids ↦ (
        some (id ∷ ids),
        record p { building_itinerary = true; error = none; itinerary_feedback = none },
      )
    ]

    unfoldable pub build_itinerary_settled : Result ItineraryBuildOut → Page F G → Page F G
    build_itinerary_settled (ok r) p = record p {
      itinerary_feedback = some (feedback_of r);
      trip_page_waits = if r.within_budget then true else p.trip_page_waits;
      building_itinerary = false;
    }
    build_itinerary_settled (err e) p = record p {
      error = some (message browser e);
      building_itinerary = false;
    }
