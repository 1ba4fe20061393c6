-- ===== src/Api.antt =====
-- The API client: frontend/src/lib/api.ts.
-- `fetch`, the server behind it and `JSON.parse` are the parameter `Net` and the decoded bodies of
-- responses. Texts are lists of code units. A request runs to its end before the next begins.
use travel_planner.Base.{
  ℕ, ◌+◌, ◌==◌, ltb, leb, Bool, true, false, not, ◌&&◌, ◌||◌, Option, none, some, List, [], ◌∷◌,
  ◌++◌, map, if◌then◌else◌, String, Code, codes, code_eq, strip, starts_with, show, is_some,
  ◌otherwise◌, str_eq, all,
}
pub mod Paths
pub mod Request
pub mod Message
pub mod Concurrent

pub data Method : Type 0 where
  get post put patch delete : Method

-- A decoded JSON value: the fields that the client looks for, all else, and the text that
-- `JSON.stringify` gives for it.
pub record Json (P : Type 0) : Type 0 where
  pub code : Option String
  pub detail : Option Code
  pub version : Option ℕ
  pub resets_at : Option String
  pub payload : P
  pub text : Code

-- `json` is `none` where the body is no JSON, `text` where it cannot be read.
pub record Response (P : Type 0) : Type 0 where
  pub status : ℕ
  pub status_text : Code
  pub text : Option Code
  pub json : Option (Json P)
  pub retry_after : Option ℕ
  pub trip_version : Option ℕ

-- `res.ok`
abbrev pub is_ok : ℕ → Bool
is_ok status = leb 200 status && leb status 299

-- What a request throws.
pub data Failure : Type 0 where
  network bad_json session_expired : Failure
  conflict : (body : Code) → Failure
  guardrail :
      (message : Code) → (status : ℕ) → (code : String) → (resets_at : Option String) → Failure
  too_many : (seconds : Option ℕ) → Failure
  http : (status : ℕ) → (text : Code) → Failure

pub data Result (A : Type 0) : Type 0 where
  ok : A → Result A
  err : Failure → Result A

-- What the client does that others see, the latest first in a log.
pub data Effect : Type 0 where
  sent : (method : Method) → (path : Code) → (bearer : Option Code) → (if_match : Option ℕ) → Effect
  refresh_sent : Effect
  to_login : Effect
  trip_conflict : (trip_id : Code) → Effect

-- The module-level state of the client, and the page that the browser shows.
pub record Api : Type 0 where
  pub access_token : Option Code
  pub trip_versions : List (Code × ℕ)
  pub location : Code
  pub log : List Effect

-- The two outside answers, each to the latest call of a log: `none` where the fetch fails.
-- A refresh that answers `ok` has a token unless its body is no JSON.
pub record Net (P : Type 0) : Type 0 where
  pub respond : List Effect → Option (Response P)
  pub refreshed : List Effect → Option (Bool × Option Code)
