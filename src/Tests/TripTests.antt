-- ===== src/Tests/TripTests.antt =====
-- The pages of a trip and of the day on concrete inputs.
use travel_planner.Base.{ℕ, ◌≡◌, refl, true, false, none, some, [], ◌∷◌}
use travel_planner.Reply.{failed}
use travel_planner.Types.{Trip, point_to_point, planned, owner}
use travel_planner.TripPage.{Server, Page}
use travel_planner.TodayPage
use travel_planner.TodayPage.{item, apply_locally, check_in}
use travel_planner.TodayPage.CheckIns.{check_in-reverts}
use travel_planner.Api.{session_expired}
use travel_planner.Queue.{arrived}
use travel_planner.Tests.QueueTests.{list_store}
use travel_planner.Tests.BoardTests.{waypoint, board, stop}

abbrev pub trip : Trip ℕ
trip = record {
  id = "t";
  user_id = "u";
  title = "Coast";
  mode = point_to_point;
  status = planned;
  start_address = "A";
  start_lat = 0;
  start_lng = 0;
  end_address = none;
  end_lat = none;
  end_lng = none;
  max_drive_minutes = none;
  notes = none;
  total_distance_meters = none;
  total_drive_seconds = none;
  route_polyline = none;
  share_token = none;
  is_public = false;
  start_date = none;
  cover_image_url = none;
  vehicle_mpg = 25;
  fuel_price_per_unit = 4;
  budget_total = none;
  currency = "USD";
  timezone = "UTC";
  is_example = false;
  share_recap = false;
  in_progress = false;
  ended = false;
  my_role = owner;
  owner_name = none;
  member_count = 0;
  version = 1;
  created_at = "now";
  updated_at = "now";
  waypoints = waypoint "a" ∷ waypoint "b" ∷ waypoint "c" ∷ [];
}

abbrev trip_page : Page ℕ
trip_page = record {
  trip = some trip;
  loading = false;
  error = none;
  route_error = none;
  draft_title = "Coast";
  editing_title = false;
  recalc_waits = false;
  error_toasts = [];
  on_trip_list = false;
  log = [];
}

abbrev trip_down : Server ℕ
trip_down = record {
  trip = λ log. failed none;
  waypoint = λ log. failed none;
  waypoints = λ log. failed none;
  done = λ log. failed none;
}

abbrev today : TodayPage.Page list_store "t"
today = record { itinerary = some board; queue = []; pending = 0; toasts = [] }

check_in-reverts_example :
    ((check_in list_store "t" true (some session_expired) (stop "a") arrived "now" today).itinerary
      ≡ some board)
    × ((check_in list_store "t" true (some session_expired) (stop "a") arrived "now" today).queue
        ≡ [])
check_in-reverts_example =
    check_in-reverts list_store "t" session_expired (stop "a") arrived "now" today board refl
      ((λ e. (refl, refl), tt), ((λ e. absurd (cc), tt), tt)) (λ e. cc)
