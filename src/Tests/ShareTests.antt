-- ===== src/Tests/ShareTests.antt =====
-- A trip that is published and made private.
use travel_planner.Base.{◌≡◌, refl, inr, true, false, none, List, [], ◌∷◌}
use travel_planner.Share.{
  ShareInfo, opened, Event, toggles, serves, toggled, toggles_recap, recap_toggled, run,
}
use travel_planner.Share.Toggle.{IsFaithful, run-IsFaithful}

abbrev link : ShareInfo
link = record { share_token = "t"; share_url = "https://trip/shared/t"; is_public = true }

private_dialog-IsFaithful : IsFaithful (opened false true none)
unfolding opened
private_dialog-IsFaithful = record {
  is_loaded = refl;
  is_shown = (refl, inr refl);
  has_link = refl;
  is_busy = refl;
}

abbrev on_and_off : List Event
on_and_off =
    toggles
    ∷ toggles
    ∷ toggled true link
    ∷ serves
    ∷ toggled true link
    ∷ toggles_recap
    ∷ toggles
    ∷ recap_toggled false
    ∷ serves
    ∷ toggled false link
    ∷ []

-- The answer to the second request was lost after the server had made the trip private.
lost_test :
    ((run on_and_off (opened false true none)).is_public ≡ true)
    × ((run on_and_off (opened false true none)).server_public ≡ false)
    × ((run on_and_off (opened false true none)).lost ≡ true)
unfolding run opened
lost_test = (refl, refl, refl)

run-IsFaithful_example : IsFaithful (run on_and_off (opened false true none))
run-IsFaithful_example =
    run-IsFaithful on_and_off (opened false true none) private_dialog-IsFaithful
