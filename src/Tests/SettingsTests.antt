-- ===== src/Tests/SettingsTests.antt =====
-- A visitor who signs in, settings that are saved, and a session that ends.
use travel_planner.Base.{
  String, Code, code_eq, show, if◌then◌else◌, [], ℕ, ◌≡◌, ◌≤◌, refl, true, false, none, some, codes,
}
use travel_planner.Reply.{Reply, answered}
use travel_planner.Auth.{AuthUser, Provider, initial, imperial, metric}
use travel_planner.Proxy.{Url}
use travel_planner.Types.{radius}
use travel_planner.NewTrip.{NewTripPage, TripCreate, handle_submit}
use travel_planner.NewTrip.Submit.{Outcome, handle_submit-Outcome}
use travel_planner.SignIn.{SignInPage}
use travel_planner.Settings.{
  Number, other, Patch, PreferencesTab, whole, preferences_tab, preferences_patch, saved,
}
use travel_planner.Settings.Preferences.{patched, without_place, preferences_patch-round_trip}

abbrev user : AuthUser ℕ
user = record {
  id = "u";
  email = "ada@example.org";
  display_name = none;
  units = imperial;
  home_address = none;
  home_lat = none;
  home_lng = none;
  default_stop_minutes = 60;
}

abbrev signed_in : Provider ℕ
signed_in = record (initial (some user) (some "t")) {
  state = record { user = some user; access_token = some "t"; is_loading = false };
}

-- `Number` on the text of the tab.
abbrev reader : Code → Number
reader text = if code_eq text (codes "045") then whole 45 else other

abbrev tab : PreferencesTab ℕ
tab = record {
  units = metric;
  stop_minutes = codes "045";
  home = some (record { address = "12 Main St"; lat = 44; lng = 8; place_id = some "g" });
  saving = true;
}

abbrev patch : Patch ℕ
patch = record {
  display_name = none;
  units = some metric;
  default_stop_minutes = some 45;
  home = some (some ("12 Main St", 44, 8));
}

preferences_patch-round_trip_example :
    let q = saved (answered (patched patch user)) signed_in in
    (q.state.user ≡ some (patched patch user))
    × (q.cached_user ≡ some (patched patch user))
    × (preferences_tab (patched patch user) ≡ record tab {
      stop_minutes = show (patched patch user).default_stop_minutes;
      home = without_place tab.home;
      saving = false;
    })
    × (reader tab.stop_minutes ≡ whole (patched patch user).default_stop_minutes)
    × (1 ≤ (patched patch user).default_stop_minutes)
    × ((patched patch user).default_stop_minutes ≤ 1440)
unfolding preferences_patch code_eq
preferences_patch-round_trip_example =
    preferences_patch-round_trip reader tab patch user signed_in refl refl

abbrev asked : Url
asked = record { pathname = codes "/trips/7/budget"; next = none; params = "" }

abbrev login_page : SignInPage ℕ
login_page = record {
  next = some (codes "/trips/7/budget");
  server_error = none;
  pending = false;
  login_success = false;
  provider = initial none none;
  pushed = [];
}

abbrev form : NewTripPage ℕ
form = record {
  mode = radius;
  title = "Weekend";
  notes = "";
  max_drive_minutes = some (whole 45);
  start_override = none;
  end = none;
  has_errors = false;
  server_error = none;
  pending = false;
  calls = [];
  pushed = [];
}

abbrev at_home : AuthUser ℕ
at_home = record user { home_address = some "12 Main St"; home_lat = some 44; home_lng = some 8 }

abbrev created_as : String → TripCreate ℕ → Reply String
created_as id body = answered id

handle_submit-Outcome_example :
    Outcome (created_as "t") form (handle_submit (created_as "t") (some at_home) form)
handle_submit-Outcome_example = handle_submit-Outcome (created_as "t") (some at_home) form
