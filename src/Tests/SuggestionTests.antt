-- ===== src/Tests/SuggestionTests.antt =====
-- The discovery endpoints of one trip.
use travel_planner.Base.{◌≡◌, true, some, [], ◌∷◌, codes, All}
use travel_planner.Api.Paths.{version_header, get_version}
use travel_planner.Suggestions.{park}
use travel_planner.Suggestions.Endpoints.{CorridorOptions}
use travel_planner.Suggestions.Endpoints.Versioned.{version_header-writes, writes}
use travel_planner.Tests.ApiTests.{trip_id, trip_id-IsTripId}

abbrev options : CorridorOptions
options = record { categories = park ∷ []; max_detour_minutes = some 10; refresh = true }

version_header-writes_example :
    All
      (λ e.
        version_header e.path e.method ((trip_id, 5) ∷ [])
        ≡ get_version trip_id ((trip_id, 5) ∷ []))
      (writes (λ params. codes "q=1") trip_id (park ∷ []) true options (codes "s1"))
version_header-writes_example =
    version_header-writes (λ params. codes "q=1") trip_id (park ∷ []) true options (codes "s1")
      ((trip_id, 5) ∷ []) trip_id-IsTripId
