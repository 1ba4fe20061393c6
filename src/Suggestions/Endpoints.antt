-- ===== src/Suggestions/Endpoints.antt =====
-- The endpoint functions of frontend/src/lib/api.ts for discovery: method and path. The bodies are
-- left out. `to_query` is `URLSearchParams.toString`, which the browser provides.
use travel_planner.Base.{
  ℕ, suc, String, Bool, true, false, Option, none, some, List, [], ◌∷◌, ◌++◌, map, if◌then◌else◌,
  ◌otherwise◌, Code, codes, show,
}
use travel_planner.Api.{Method}
use travel_planner.Suggestions.{SuggestionCategory, category_code}
pub mod Versioned

pub record Endpoint : Type 0 where
  pub method : Method
  pub path : Code

abbrev pub trip_base : Code → Code → Code
trip_base id part = codes "/trips/" ++ (id ++ part)

-- `/trips/${tripId}/<kind>/suggestions/${suggestionId}/select`
abbrev pub deselect_part : Code → Code → Code
deselect_part kind suggestion_id =
    kind ++ (codes "/suggestions/" ++ (suggestion_id ++ codes "/select"))

unfoldable pub get_radius_suggestions : Code → Endpoint
get_radius_suggestions id = record {
  method = Method.get;
  path = trip_base id (codes "/radius/suggestions");
}

unfoldable pub select_suggestions : Code → Endpoint
select_suggestions id = record {
  method = Method.post;
  path = trip_base id (codes "/radius/select");
}

unfoldable pub deselect_suggestion : Code → Code → Endpoint
deselect_suggestion id suggestion_id = record {
  method = Method.delete;
  path = trip_base id (deselect_part (codes "/radius") suggestion_id);
}

unfoldable pub build_radius_itinerary : Code → Endpoint
build_radius_itinerary id = record {
  method = Method.post;
  path = trip_base id (codes "/radius/build-itinerary");
}

unfoldable pub get_corridor_suggestions : Code → Endpoint
get_corridor_suggestions id = record {
  method = Method.get;
  path = trip_base id (codes "/corridor/suggestions");
}

unfoldable pub select_corridor_suggestions : Code → Endpoint
select_corridor_suggestions id = record {
  method = Method.post;
  path = trip_base id (codes "/corridor/select");
}

unfoldable pub deselect_corridor_suggestion : Code → Code → Endpoint
deselect_corridor_suggestion id suggestion_id = record {
  method = Method.delete;
  path = trip_base id (deselect_part (codes "/corridor") suggestion_id);
}

-- What the corridor page asks for.
pub record CorridorOptions : Type 0 where
  pub categories : List SuggestionCategory
  pub max_detour_minutes : Option ℕ
  pub refresh : Bool

abbrev pub refresh_param : Bool → List (Code × Code)
refresh_param refresh = if refresh then (codes "refresh", codes "true") ∷ [] else []

abbrev pub category_params : List SuggestionCategory → List (Code × Code)
category_params categories = map (λ c. (codes "categories", category_code c)) categories

abbrev pub detour_param : Option ℕ → List (Code × Code)
detour_param none = []
detour_param (some minutes) = (codes "max_detour_minutes", show minutes) ∷ []

module _ (to_query : List (Code × Code) → Code) where
  -- `${qs ? `?${qs}` : ""}`
  abbrev pub query : List (Code × Code) → Code
  query params = elim (to_query params) [ [] ↦ [] | c ∷ cs ↦ b'?' ∷ c ∷ cs ]

  unfoldable pub discover_radius : Code → List SuggestionCategory → Bool → Endpoint
  discover_radius id categories refresh = record {
    method = Method.post;
    path =
        trip_base id
          (codes "/radius/discover" ++ query (category_params categories ++ refresh_param refresh));
  }

  unfoldable pub discover_corridor : Code → CorridorOptions → Endpoint
  discover_corridor id opts = record {
    method = Method.post;
    path = trip_base id (
        codes "/corridor/discover"
        ++ query (
            refresh_param opts.refresh
            ++ (category_params opts.categories ++ detour_param opts.max_detour_minutes)));
  }
