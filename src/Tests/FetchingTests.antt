-- ===== src/Tests/FetchingTests.antt =====
-- Weather that is asked for twice.
use travel_planner.Base.{ℕ, ◌≡◌, refl, false, Option, none, some, List, [], ◌∷◌, arith}
use travel_planner.Fetching.{Hook, Event, renders, settles, Resource, use_trip_resource, run}
use travel_planner.Fetching.Latest.{latest_of, run_latest, IsTracked, run-latest}

abbrev unloaded : Hook Resource (Option ℕ)
unloaded = record { deps = none; asked = 0; cancelled = λ n. false; cleanup = none; shown = none }

unloaded-IsTracked : IsTracked unloaded
unfolding IsTracked
unloaded-IsTracked n = ground arith

abbrev first_dates : Resource
first_dates = record { path = some "/trips/a/weather"; signature = "may" }

abbrev late_answer : List (Event Resource (Option ℕ))
late_answer =
    renders first_dates
    ∷ renders (record first_dates { signature = "june" })
    ∷ settles 1 (some (some 25))
    ∷ settles 0 (some (some 14))
    ∷ []

june_stays : (run use_trip_resource late_answer unloaded).shown ≡ some 25
unfolding run
june_stays = refl

run-latest_example :
    latest_of (run use_trip_resource late_answer unloaded)
    ≡ run_latest use_trip_resource late_answer (latest_of unloaded)
run-latest_example = run-latest use_trip_resource late_answer unloaded unloaded-IsTracked
