-- ===== src/Discovery.antt =====
-- What the discovery pages know besides their results: frontend/src/hooks/useDiscoveryQuota.ts and
-- frontend/src/hooks/useVotes.ts. Events arrive while the page is mounted; a request for the quota
-- or the votes that fails is no event, since the hooks ignore it.
use travel_planner.Base.{
  ℕ, String, Bool, true, false, not, Option, none, some, List, [], ◌∷◌, find, keep, str_eq,
  if◌then◌else◌, is_some,
}
use travel_planner.Reply.{Reply, answered, failed}
use travel_planner.Api.{
  Failure, network, bad_json, session_expired, conflict, guardrail, too_many, http,
}
use travel_planner.Format.{Delta, ahead}
use travel_planner.Schedule.{minus}
pub mod Pauses

pub record Quota : Type 0 where
  pub remaining : Option ℕ
  pub paused_until : Option String

abbrev pub is_paused : Quota → Bool
is_paused q = is_some q.paused_until

-- The change of state, and whether the error was consumed as a pause.
abbrev pub note_code : String → Option String → Quota → Quota × Bool
note_code code resets_at q =
    if str_eq code "budget_exhausted"
    then (record q { paused_until = resets_at }, true)
    else if str_eq code "user_quota"
    then (record q { remaining = some 0 }, false)
    else (q, false)

unfoldable pub note_error : Failure → Quota → Quota × Bool
note_error (guardrail message status code resets_at) q = note_code code resets_at q
note_error _ q = (q, false)

pub data Event : Type 0 where
  -- An answer to `getMyQuota`, with what it says about the page's action.
  quota_loaded : Option ℕ → Event
  error_noted : Failure → Event
  -- The timer that was set for `pausedUntil`.
  pause_over : Event

unfoldable pub step : Event → Quota → Quota
unfolding note_error
step (quota_loaded n) q = record q { remaining = n }
step (error_noted e) q = (note_error e q).0
step pause_over q = record q { paused_until = none }

unfoldable pub run : List Event → Quota → Quota
run [] q = q
run (e ∷ es) q = run es (step e q)

pub record VoteTally : Type 0 where
  pub up : ℕ
  pub down : ℕ

pub record Votes : Type 0 where
  pub tallies : List (String × VoteTally)
  pub errors : ℕ

abbrev pub tally_of : String → Votes → Option (String × VoteTally)
tally_of id v = find (λ t. str_eq t.0 id) v.tallies

-- `setTallies((prev) => ({ ...prev, [targetId]: tally }))`, or a toast.
unfoldable pub vote : String → Reply VoteTally → Votes → Votes
vote target_id (answered tally) v = record v {
  tallies = (target_id, tally) ∷ keep (λ t. not (str_eq t.0 target_id)) v.tallies;
}
vote target_id (failed e) v = record v { errors = Prim.Native.Nat.suc v.errors }

-- Votes for minus votes against; 0 for a target without votes.
pub net : String → Votes → Delta
net id v = elim (tally_of id v) [ none ↦ ahead 0 | some (_, t) ↦ minus t.up t.down ]
