-- ===== src/Tests/ConcurrentTests.antt =====
-- Two overlapping requests, of which one is refused with a 401.
use travel_planner.Base.{ℕ, ◌≤◌, ◌≡◌, refl, ◌⊎◌, true, false, none, some, [], ◌∷◌, codes, All}
use travel_planner.Api.{Method, Response, Api, Net}
use travel_planner.Api.Request.{request}
use travel_planner.Api.Concurrent.Alone.{alone, AreOf, alone-request}
use travel_planner.Api.Concurrent.{
  Pending, Client, fetching, ended, started, responded, refresh_settled, Work, responds, refreshes,
  Run, here, starts, works, refresh_access_token,
}
use travel_planner.Api.Concurrent.Counts.{IsCounted}
use travel_planner.Api.Concurrent.Traffic.{quiet, Run-IsCounted}
use travel_planner.Api.Concurrent.Progress.{Works, idle, then_works, to_do, HasEnded, Run-ends}

abbrev tab : Api
tab = record { access_token = none; trip_versions = []; location = codes "/"; log = [] }

abbrev trips_call : Pending ℕ
trips_call = record { method = Method.get; path = codes "/trips"; phase = fetching false }

abbrev refused : Response ℕ
refused = record {
  status = 401;
  status_text = codes "";
  text = none;
  json = none;
  retry_after = none;
  trip_version = none;
}

abbrev two_started : Client ℕ
two_started = started Method.get (codes "/trips") (started Method.get (codes "/trips") (quiet tab))

abbrev both_begun : Run (quiet tab) 0 two_started
both_begun = starts Method.get (codes "/trips") (starts Method.get (codes "/trips") here)

abbrev one_joined : Client ℕ
one_joined = responded [] trips_call (trips_call ∷ []) false refused two_started

one_refused : Work two_started one_joined
unfolding started
one_refused = responds [] (trips_call ∷ []) trips_call false refused refl refl

abbrev woken_client : Client ℕ
woken_client = refresh_settled (some (codes "t")) one_joined

is_under_way : one_joined.refreshing ≡ true
unfolding started responded refresh_access_token
is_under_way = refl

Run-IsCounted_example : IsCounted 1 woken_client
unfolding one_refused
Run-IsCounted_example =
    Run-IsCounted tab
      (works (works both_begun one_refused) (refreshes (some (codes "t")) is_under_way))

Run-ends_example :
    (1 ≤ to_do two_started) × (All HasEnded one_joined.calls ⊎ ((e : Client ℕ) × Work one_joined e))
Run-ends_example = Run-ends tab both_begun (then_works idle one_refused)

-- Every fetch is refused, every refresh granted.
abbrev refusing_net : Net ℕ
refusing_net = record {
  respond = λ log. some refused;
  refreshed = λ log. some (true, some (codes "t"));
}

alone-request_example :
    (k : ℕ) × (d : Client ℕ) × (ws : Works (started Method.get (codes "/trips") (alone tab)) k d)
    × AreOf refusing_net ws
    × (d.api ≡ (request refusing_net Method.get (codes "/trips") tab).1)
    × (d.calls
        ≡ record {
          method = Method.get;
          path = codes "/trips";
          phase = ended (request refusing_net Method.get (codes "/trips") tab).0;
        }
          ∷ [])
alone-request_example = alone-request refusing_net Method.get (codes "/trips") tab
