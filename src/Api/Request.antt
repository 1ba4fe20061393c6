-- ===== src/Api/Request.antt =====
-- `doFetch` and `request` of api.ts. A request is `request_retry` once it has been retried, so the
-- recursion of the source is two definitions.
use travel_planner.Base.{
  ℕ, ◌==◌, leb, Bool, true, false, not, ◌&&◌, ◌||◌, Option, none, some, List, [], ◌∷◌,
  if◌then◌else◌, Code, codes, starts_with, ◌otherwise◌, String, str_eq, is_some,
}
use travel_planner.Api.{
  Method, Json, Response, is_ok, Failure, network, bad_json, session_expired, conflict, guardrail,
  too_many, http, Result, ok, err, Effect, sent, refresh_sent, to_login, trip_conflict, Api, Net,
}
use travel_planner.Api.Paths.{trip_path, version_header, note_versions}
pub mod Session
pub mod Versions
pub mod Account

abbrev pub Out : Type 0 → Type 0
Out P = Result (Option P) × Api

-- An empty token is falsy.
abbrev pub held : Option Code → Option Code
held none = none
held (some []) = none
held (some (c ∷ cs)) = some (c ∷ cs)

abbrev pub does : Effect → Api → Api
does e s = record s { log = e ∷ s.log }

-- The `fetch` that `doFetch` makes.
abbrev pub fetch_of : Method → Code → Api → Effect
fetch_of method path s =
    sent method path (held s.access_token) (version_header path method s.trip_versions)

abbrev pub with_versions : {P : Type 0} → Code → Response P → Option ℕ → Api → Api
with_versions path res body s = record s {
  trip_versions = note_versions path res.trip_version body s.trip_versions;
}

abbrev pub conflicted : Code → Api → Api
conflicted path s = elim (trip_path path) [ none ↦ s | some (id, sub) ↦ does (trip_conflict id) s ]

abbrev pub has_code : {P : Type 0} → Option (Json P) → String → Bool
has_code none c = false
has_code (some j) c = elim j.code [ none ↦ false | some d ↦ str_eq d c ]

abbrev pub fallback : Code
fallback = codes "This action is temporarily unavailable."

abbrev pub refused_code : {P : Type 0} → Response P → Option String
refused_code res = elim res.json [
  | none ↦ none
  | some j ↦
      if has_code res.json "budget_exhausted" || has_code res.json "user_quota"
      then j.code
      else none
]

abbrev pub body_detail : {P : Type 0} → Option (Json P) → Option Code
body_detail none = none
body_detail (some j) = j.detail

abbrev pub body_text : {P : Type 0} → Option (Json P) → Code
body_text none = []
body_text (some j) = j.text

abbrev pub body_resets_at : {P : Type 0} → Option (Json P) → Option String
body_resets_at none = none
body_resets_at (some j) = j.resets_at

-- `seconds` is falsy when it is 0.
abbrev pub nonzero : Option ℕ → Option ℕ
nonzero none = none
nonzero (some n) = if n == 0 then none else some n

-- The last part of `request`: an answer that is neither a conflict nor a refusal.
unfoldable pub plain_answer : {P : Type 0} → Code → Response P → Api → Out P
plain_answer path res s =
    if res.status == 429
    then (err (too_many (nonzero res.retry_after)), s)
    else if not (is_ok res.status)
    then (err (http res.status (res.text otherwise res.status_text)), s)
    else if res.status == 204
    then (ok none, with_versions path res none s)
    else elim res.json [
      | none ↦ (err bad_json, s)
      | some j ↦ (ok (some j.payload), with_versions path res j.version s)
    ]

unfoldable pub guarded_answer : {P : Type 0} → Code → Response P → Api → Out P
guarded_answer path res s =
    if res.status == 429 || res.status == 503
    then elim (refused_code res) [
      | some code ↦ (
        err (
            guardrail (body_detail res.json otherwise fallback) res.status code
              (body_resets_at res.json)),
        s,
      )
      | none ↦ plain_answer path res s
    ]
    else plain_answer path res s

-- What follows the test for a 401.
unfoldable pub answered : {P : Type 0} → Code → Response P → Api → Out P
answered path res s =
    if res.status == 409 && has_code res.json "version_conflict"
    then (err (conflict (body_text res.json)), conflicted path s)
    else guarded_answer path res s

-- The assignment of `window.location.href` is an effect: the browser leaves the page later, and the
-- location that other requests read is still the old one.
abbrev pub signed_out : Api → Api
signed_out s =
    let cleared = record s { access_token = none } in
    if starts_with s.location (codes "/login") then cleared else does to_login cleared

module _ {P : Type 0} (net : Net P) where
  -- A request that may not be retried any more.
  unfoldable pub request_retry : Method → Code → Api → Out P
  request_retry method path s =
      let sent_now = does (fetch_of method path s) s in
      elim (net.respond sent_now.log) [
        | none ↦ (err network, sent_now)
        | some res ↦ answered path res sent_now
      ]

  -- The token of `refreshAccessToken`; every failure is `null`.
  abbrev pub new_token : List Effect → Option Code
  new_token log = elim (net.refreshed log) [
    | none ↦ none
    | some (is_fine, token) ↦ if is_fine then held token else none
  ]

  unfoldable pub after_refresh : Method → Code → Option Code → Api → Out P
  after_refresh method path none s = (err session_expired, signed_out s)
  after_refresh method path (some token) s =
      request_retry method path (record s { access_token = some token })

  unfoldable pub request : Method → Code → Api → Out P
  request method path s =
      let sent_now = does (fetch_of method path s) s in
      elim (net.respond sent_now.log) [
        | none ↦ (err network, sent_now)
        | some res ↦
            if res.status == 401 && not (starts_with path (codes "/auth/"))
            then after_refresh method path (new_token (refresh_sent ∷ sent_now.log))
                (does refresh_sent sent_now)
            else answered path res sent_now
      ]
