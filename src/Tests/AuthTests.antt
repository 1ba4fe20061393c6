-- ===== src/Tests/AuthTests.antt =====
-- Runs of the sign-in provider.
use travel_planner.Base.{String, false, none, some, [], ◌∷◌, ◌≡◌}
use travel_planner.Auth.{
  AuthUser, Provider, imperial, initial, restored, restore_refused, signed_in, step, run,
}
use travel_planner.Auth.Session.{signed_in-wins}

abbrev named : String → AuthUser (Unit {0})
named name = record {
  id = name;
  email = "a@b.c";
  display_name = some name;
  units = imperial;
  home_address = none;
  home_lat = none;
  home_lng = none;
  default_stop_minutes = 30;
}

abbrev fresh_page : Provider (Unit {0})
fresh_page = initial none none

signed_in-wins_example :
    ((run
        (restored "old" (some (named "Old")) ∷ restore_refused ∷ [])
        (step (signed_in "new" (named "New")) fresh_page)).state
      ≡ record { user = some (named "New"); access_token = some "new"; is_loading = false })
    × ((run
          (restored "old" (some (named "Old")) ∷ restore_refused ∷ [])
          (step (signed_in "new" (named "New")) fresh_page)).api_token
        ≡ some "new")
    × ((run
          (restored "old" (some (named "Old")) ∷ restore_refused ∷ [])
          (step (signed_in "new" (named "New")) fresh_page)).token_ref
        ≡ some "new")
signed_in-wins_example =
    signed_in-wins (restored "old" (some (named "Old")) ∷ restore_refused ∷ []) fresh_page "new"
      (named "New") (tt, (tt, tt))
