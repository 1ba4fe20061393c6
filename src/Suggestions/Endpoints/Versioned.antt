-- ===== src/Suggestions/Endpoints/Versioned.antt =====
-- The discovery endpoints and the versions of trips.
use travel_planner.Base.{
  ℕ, ◌≡◌, refl, ◌||◌, ◌&&◌, Bool, true, false, Option, none, some, List, [], ◌∷◌, ◌++◌,
  if◌then◌else◌, Code, codes, All,
}
use travel_planner.Api.{Method}
use travel_planner.Api.Paths.{
  sub_path, before_query, is_versioned, is_read, is_patch, is_empty, version_header, get_version,
}
use travel_planner.Api.Paths.Laws.{IsTripId, trip_path_of}
use travel_planner.Suggestions.{SuggestionCategory}
use travel_planner.Suggestions.Endpoints.{
  Endpoint, trip_base, deselect_part, query, category_params, refresh_param, detour_param,
  CorridorOptions, discover_radius, select_suggestions, deselect_suggestion, build_radius_itinerary,
  discover_corridor, select_corridor_suggestions, deselect_corridor_suggestion,
}

decided : (a b : Bool) → b ≡ true → (v : Option ℕ) → (if a || b then v else none) ≡ v
decided true b h v = refl
decided false b h v = rw h refl

-- A change of a versioned part of a trip sends the remembered version.
version_header_of :
    (id rest part : Code) (method : Method) (versions : List (Code × ℕ))
    → IsTripId id
    → sub_path rest ≡ some part
    → is_versioned part ≡ true
    → is_read method ≡ false
    → version_header (trip_base id rest) method versions ≡ get_version id versions
unfolding version_header
version_header_of id rest part method versions is_id sub versioned writes =
    rw (trip_path_of id rest is_id, version_header)
      (rw (sub, writes)
        (decided (is_empty part && is_patch method) (is_versioned part) versioned
          (get_version id versions)))

-- The writing endpoints of discovery, for one trip.
abbrev pub writes :
    (List (Code × Code) → Code)
    → Code
    → List SuggestionCategory
    → Bool
    → CorridorOptions
    → Code
    → List Endpoint
writes to_query id categories refresh opts suggestion_id =
    discover_radius to_query id categories refresh
    ∷ select_suggestions id
    ∷ deselect_suggestion id suggestion_id
    ∷ build_radius_itinerary id
    ∷ discover_corridor to_query id opts
    ∷ select_corridor_suggestions id
    ∷ deselect_corridor_suggestion id suggestion_id
    ∷ []

-- Whatever the query, every writing endpoint of discovery is a versioned edit of its trip: the
-- request sends the version of the trip that the client remembers, and so cannot silently
-- overwrite another member's change.
pub version_header-writes :
    (to_query : List (Code × Code) → Code) (id : Code) (categories : List SuggestionCategory)
    (refresh : Bool) (opts : CorridorOptions) (suggestion_id : Code) (versions : List (Code × ℕ))
    → IsTripId id
    → All
        (λ e. version_header e.path e.method versions ≡ get_version id versions)
        (writes to_query id categories refresh opts suggestion_id)
unfolding discover_radius select_suggestions deselect_suggestion build_radius_itinerary
    discover_corridor select_corridor_suggestions deselect_corridor_suggestion sub_path before_query
    is_versioned
version_header-writes to_query id categories refresh opts suggestion_id versions is_id = (
  send Method.post
      (codes "/radius/discover"
        ++ query to_query (category_params categories ++ refresh_param refresh))
      refl refl refl,
  (
    send Method.post (codes "/radius/select") refl refl refl,
    (
      send Method.delete (deselect_part (codes "/radius") suggestion_id) refl refl refl,
      (
        send Method.post (codes "/radius/build-itinerary") refl refl refl,
        (
          send Method.post
              (codes "/corridor/discover"
                ++ query to_query (
                    refresh_param opts.refresh
                    ++ (category_params opts.categories ++ detour_param opts.max_detour_minutes)))
              refl refl refl,
          (
            send Method.post (codes "/corridor/select") refl refl refl,
            (
              send Method.delete (deselect_part (codes "/corridor") suggestion_id) refl refl refl,
              tt,
            ),
          ),
        ),
      ),
    ),
  ),
)
  where
    send :
        (method : Method) (rest : Code) {part : Code}
        → sub_path rest ≡ some part
        → is_versioned part ≡ true
        → is_read method ≡ false
        → version_header (trip_base id rest) method versions ≡ get_version id versions
    send method rest {part} = version_header_of id rest part method versions is_id
