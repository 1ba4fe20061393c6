-- ===== src/Tests/PollingTests.antt =====
-- A tab whose trip is at version 5, and a server that compares versions.
use travel_planner.Base.{
  ℕ, suc, ◌==◌, ◌<◌, ◌≡◌, refl, ◌⊎◌, true, false, not, none, some, List, [], ◌∷◌, Code, codes,
  code_eq, any, arith, if◌then◌else◌,
}
use travel_planner.Api.{Method}
use travel_planner.Api.Paths.{
  trip_path, take_id, sub_path, before_query, version_header, get_version, is_versioned,
}
use travel_planner.Polling.{Changes, poll_begun, poll_settled}
use travel_planner.Polling.Tab.{
  Backend, Tab, saved, edited_elsewhere, poll_starts, poll_ends, poll, Event, is_other, save, run,
}
use travel_planner.Polling.Notice.{run-notices}
use travel_planner.Tests.ApiTests.{trip_id, stops}

abbrev careful : Backend ℕ
careful = record {
  saves = λ if_match version. elim if_match [
    | none ↦ some (suc version)
    | some w ↦ if w == version then some (suc version) else none
  ];
  compare = λ since version. record {
    version = version;
    changed = not (since == version);
    activity = [];
  };
}

abbrev open_tab : Tab ℕ
open_tab = record {
  server = 5;
  versions = (trip_id, 5) ∷ [];
  shown = none;
  refused = 0;
  polls = [];
  overtaken = false;
}

abbrev two_edits : List Event
two_edits = saved ∷ poll_starts true true ∷ edited_elsewhere ∷ poll_ends 0 true ∷ []

abbrev after_both : Tab ℕ
after_both = run careful stops Method.post trip_id 5 two_edits open_tab

stops-trip_path : trip_path stops ≡ some (trip_id, some (codes "/waypoints"))
unfolding trip_path take_id sub_path before_query
stops-trip_path = refl

stops-version_header :
    (versions : List (Code × ℕ))
    → version_header stops Method.post versions ≡ get_version trip_id versions
unfolding version_header is_versioned trip_path take_id sub_path before_query
stops-version_header versions = refl

careful-saves : (v : ℕ) → careful.saves (some v) v ≡ some (suc v)
careful-saves v = ground arith

careful-saves_stale : (w v : ℕ) → w < v → careful.saves (some w) v ≡ none
careful-saves_stale w v h = ground (arith, h)

known_version : get_version trip_id ((trip_id, 5) ∷ []) ≡ some 5
unfolding get_version code_eq
known_version = refl

-- An own edit between a poll and its answer is shown as if somebody else had made it.
overtaken_test :
    let late =
      run careful stops Method.post trip_id 5
        (poll_starts true true ∷ saved ∷ poll_ends 0 false ∷ [])
        open_tab in
    (late.overtaken ≡ true)
    × (late.shown ≡ some (record { version = 6; changed = true; activity = [] }))
unfolding version_header is_versioned trip_path take_id sub_path before_query get_version code_eq
    poll_begun poll_settled
overtaken_test = (refl, refl)

run-notices_example :
    ((any is_other two_edits ≡ false)
      × ((save careful stops Method.post trip_id 5 after_both).server ≡ suc after_both.server)
      × ((after_both.overtaken ≡ true)
          ⊎ ((after_both.shown ≡ none)
              × ((poll careful stops Method.post trip_id 5 after_both).shown ≡ none))))
    ⊎ ((any is_other two_edits ≡ true)
        × (save careful stops Method.post trip_id 5 after_both
            ≡ record after_both { refused = suc after_both.refused })
        × ((changes : Changes ℕ) × ((poll careful stops Method.post trip_id 5 after_both).shown
              ≡ some changes)))
run-notices_example =
    run-notices careful stops Method.post trip_id 5 (some (codes "/waypoints")) stops-trip_path
      stops-version_header careful-saves careful-saves_stale (λ since v. refl) two_edits open_tab
      known_version refl refl
