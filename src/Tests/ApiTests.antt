-- ===== src/Tests/ApiTests.antt =====
-- A server that wants one token, and a trip.
use travel_planner.Base.{
  ℕ, ◌≡◌, ◌≢◌, ◌⊎◌, refl, Bool, true, false, Option, none, some, List, [], ◌∷◌, ◌++◌, String, arith,
  Code, codes, All, all, code_eq, code_eq_iff, if◌then◌else◌, inl, inr, Bool-cases,
}
use travel_planner.Api.{Method, Response, ok, Effect, sent, refresh_sent, Api, Net}
use travel_planner.Api.Paths.{
  trip_path, version_header, is_versioned, take_id, sub_path, before_query, is_id_code,
  note_versions, get_version, set_version,
}
use travel_planner.Api.Paths.Laws.{IsTripId}
use travel_planner.Api.Request.{
  held, does, fetch_of, request, after_refresh, request_retry, answered, guarded_answer,
  plain_answer,
}
use travel_planner.Api.Request.Account.{request-own_account}
use travel_planner.Api.Request.Session.{Wants, request-recovers}

abbrev pub trip_id : Code
trip_id = codes "01234567-89ab-cdef-0123-456789abcdef"

abbrev trip : Code
trip = codes "/trips/01234567-89ab-cdef-0123-456789abcdef"

abbrev pub stops : Code
stops = codes "/trips/01234567-89ab-cdef-0123-456789abcdef/waypoints"

abbrev token : Code
token = codes "t"

abbrev answer : ℕ → Option String → Option ℕ → Response ℕ
answer status code version = record {
  status = status;
  status_text = codes "";
  text = some (codes "{}");
  json = some (record {
    code = code;
    detail = none;
    version = none;
    resets_at = none;
    payload = 7;
    text = codes "{}";
  });
  retry_after = none;
  trip_version = version;
}

abbrev is_token : Option Code → Bool
is_token none = false
is_token (some t) = code_eq t token

-- Answers 200 to the one token, and 401 to all else.
abbrev answers : List Effect → Option (Response ℕ)
answers (sent method path bearer if_match ∷ log) =
    some (if is_token bearer then answer 200 none none else answer 401 none none)
answers _ = none

abbrev strict : Net ℕ
strict = record { respond = answers; refreshed = λ log. some (true, some token) }

abbrev client : Api
client = record {
  access_token = some (codes "old");
  trip_versions = (trip_id, 4) ∷ [];
  location = codes "/trips";
  log = [];
}

client_run : Unit {0}
unfolding request after_refresh request_retry answered guarded_answer plain_answer trip_path take_id
    sub_path before_query version_header note_versions get_version set_version code_eq is_versioned
client_run = tt

request_test :
    (request strict Method.get trip client).1.log
    ≡ sent Method.get trip (some token) none
      ∷ refresh_sent
      ∷ sent Method.get trip (some (codes "old")) none
      ∷ []
unfolding client_run
request_test = refl

strict-Wants : Wants token (answer 200 none none) strict
unfolding client_run
strict-Wants method path none if_match log = inr (λ e. cc, (answer 401 none none, refl, refl))
strict-Wants method path (some t) if_match log = elim (Bool-cases (code_eq t token)) [
  | inl same ↦ let e : t ≡ token = (code_eq_iff t token).0 same in inl (rw e refl, rw same refl)
  | inr different ↦
      inr
        (λ e. ground (arith, code_eq_iff t token), (answer 401 none none, rw different refl, refl))
]

request-recovers_example :
    ((request strict Method.get trip client).0 ≡ ok (some 7))
    × ((request strict Method.get trip client).1.access_token ≡ some token)
    × (((held client.access_token ≡ some token)
          × ((request strict Method.get trip client).1.log
              ≡ fetch_of Method.get trip client ∷ client.log))
        ⊎ ((held client.access_token ≢ some token)
            × ((request strict Method.get trip client).1.log
                ≡ fetch_of Method.get trip
                    (record (does refresh_sent (does (fetch_of Method.get trip client) client)) {
                      access_token = some token;
                    })
                  ∷ refresh_sent
                  ∷ fetch_of Method.get trip client
                  ∷ client.log)))
request-recovers_example =
    request-recovers strict b't' [] (answer 200 none none)
      (record {
        code = none;
        detail = none;
        version = none;
        resets_at = none;
        payload = 7;
        text = codes "{}";
      })
      Method.get trip strict-Wants refl refl (λ log. refl) refl client

All-all : {A : Type 0} (q : A → Bool) (xs : List A) → all q xs ≡ true → All (λ x. q x ≡ true) xs
All-all q [] h = tt
All-all q (x ∷ xs) h = (ground (arith, h), All-all q xs (ground (arith, h)))

pub trip_id-IsTripId : IsTripId trip_id
trip_id-IsTripId = (refl, All-all is_id_code trip_id refl)

request-own_account_example :
    ((request strict Method.get (codes "/auth/" ++ codes "me") client).1.log
      ≡ fetch_of Method.get (codes "/auth/me") client ∷ client.log)
    × ((request strict Method.get (codes "/auth/" ++ codes "me") client).1.access_token
        ≡ client.access_token)
    × ((request strict Method.get (codes "/auth/" ++ codes "me") client).1.location
        ≡ client.location)
request-own_account_example = request-own_account strict Method.get (codes "me") client
