-- ===== src/Tests/DiscoveryTests.antt =====
-- A pause of discovery.
use travel_planner.Base.{◌↔◌, ◌≡◌, refl, ◌⊎◌, false, none, some, List, [], ◌∷◌, any, codes}
use travel_planner.Api.{guardrail}
use travel_planner.Discovery.{Quota, Event, quota_loaded, error_noted, step, run, note_error}
use travel_planner.Discovery.Pauses.{IsPausing, is_change, run-paused}

abbrev free : Quota
free = record { remaining = some 3; paused_until = none }

abbrev exhausted : List Event
exhausted =
    error_noted (guardrail (codes "stop") 503 "budget_exhausted" (some "midnight"))
    ∷ quota_loaded (some 2)
    ∷ []

run-paused_example : ((run exhausted free).paused_until ≡ some "midnight") ↔ (
    ((free.paused_until ≡ some "midnight") × (any is_change exhausted ≡ false))
    ⊎ IsPausing exhausted "midnight")
run-paused_example = run-paused exhausted free "midnight"

paused_test : (run exhausted free).paused_until ≡ some "midnight"
unfolding run step note_error
paused_test = refl
