-- ===== src/Tests/TripsTests.antt =====
-- Filters that are changed while a fetch is under way.
use travel_planner.Base.{false, Option, none, some, List, [], ◌∷◌}
use travel_planner.Types.{TripStatus, draft, planned, radius}
use travel_planner.TripsPage.{TripListItem, Filters, TripsPage, by_created_at, all_trips}
use travel_planner.TripsPage.Order.{Event, chosen, answer_came, fetch_failed, run}

abbrev by_status : Option TripStatus → Filters
by_status status = record { status = status; sort = by_created_at; scope = all_trips }

abbrev lake : TripListItem
lake = record {
  id = "t";
  title = "Lake";
  total_distance_meters = none;
  total_drive_seconds = none;
  cover_image_url = none;
  is_example = none;
  role = none;
  owner_name = none;
  route_thumb = none;
  start_date = none;
  is_public = false;
  mode = radius;
  status = draft;
  created_at = "";
  updated_at = "";
}

abbrev drafts_only : Filters → List TripListItem
drafts_only filters = elim filters.status [ some planned ↦ [] | _ ↦ lake ∷ [] ]

abbrev trips_page : TripsPage
trips_page = record {
  trips = lake ∷ [];
  loading = false;
  error = none;
  filters = by_status none;
  toasts = [];
}

abbrev two_clicks : List Event
two_clicks =
    chosen (by_status (some planned))
    ∷ fetch_failed none
    ∷ chosen (by_status none)
    ∷ answer_came
    ∷ answer_came
    ∷ []

abbrev shown_at_last : TripsPage
shown_at_last = (run drafts_only (chosen (by_status (some draft)) ∷ two_clicks) (trips_page, [])).0
