-- ===== src/Suggestions/Corridor/Races.antt =====
-- Discoveries that overtake each other.
use travel_planner.Base.{ℕ, ◌≡◌, refl, false, some, Code}
use travel_planner.Api.{Failure, ok}
use travel_planner.Suggestions.Corridor.{
  Page, CorridorDiscoverResponse, discovery_begun, handle_detour_change, discovery_settled,
}

module _ {F : Type 0} (browser : Failure → Code) (first second : ℕ)
    (to_first to_second : CorridorDiscoverResponse F) (p : Page F) where
  -- The page with two detours both_chosen one after the other, before any answer.
  abbrev pub both_chosen : Page F
  both_chosen = (handle_detour_change second (handle_detour_change first p).1).1

  -- The answers come in order, or the answer to the first detour comes last.
  abbrev pub in_order : Page F
  in_order =
      discovery_settled browser (ok to_second) (discovery_settled browser (ok to_first) both_chosen)

  abbrev pub overtaken : Page F
  overtaken =
      discovery_settled browser (ok to_first) (discovery_settled browser (ok to_second) both_chosen)

  -- A user chooses a detour and then another. Both requests ask for the detour of their click. If
  -- the answers come in order, the page shows the answer for the both_chosen detour. If the answer to
  -- the first comes last, the page still marks the second detour as both_chosen but shows the answer for
  -- the first, and no longer shows that it is discovering.
  pub handle_detour_change-overtaken :
      ((handle_detour_change first p).0.max_detour_minutes ≡ some first)
      × ((handle_detour_change second (handle_detour_change first p).1).0.max_detour_minutes
          ≡ some second)
      × (in_order.suggestions ≡ to_second.suggestions)
      × (overtaken.suggestions ≡ to_first.suggestions)
      × (overtaken.max_detour_minutes ≡ second)
      × (overtaken.discovering ≡ false)
  unfolding handle_detour_change discovery_begun discovery_settled
  handle_detour_change-overtaken = (refl, refl, refl, refl, refl, refl)
