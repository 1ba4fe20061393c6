-- ===== src/Api/Message.antt =====
-- The texts of thrown errors, and `apiErrorMessage` of api.ts.
-- `browser` gives the texts of the errors that the browser makes, and `parse` is `JSON.parse`
-- followed by the look at `detail`: `none` where the text is no JSON.
use travel_planner.Base.{
  ℕ, suc, ◌==◌, Bool, true, false, Option, none, some, List, [], ◌∷◌, ◌++◌, if◌then◌else◌, Code,
  codes, strip, show, is_digit, ◌otherwise◌,
}
use travel_planner.Api.{
  Failure, network, bad_json, session_expired, conflict, guardrail, too_many, http,
}
pub mod RoundTrip

abbrev pub plural : ℕ → Code
plural n = if n == 1 then [] else codes "s"

-- `err.message` of what a request throws.
unfoldable pub message : (Failure → Code) → Failure → Code
message browser network = browser network
message browser bad_json = browser bad_json
message browser session_expired = codes "Session expired. Please log in again."
message browser (conflict body) = codes "API 409: " ++ body
message browser (guardrail text status code resets_at) = text
message browser (too_many none) =
    codes "Too many requests. Please wait a moment before trying again."
message browser (too_many (some n)) =
    codes "Too many requests. Please wait "
    ++ (show n ++ (codes " second" ++ (plural n ++ codes " before trying again.")))
message browser (http status text) = codes "API " ++ (show status ++ (codes ": " ++ text))

-- `\d*`, and what follows.
unfoldable pub skip_digits : Code → Code
skip_digits [] = []
skip_digits (c ∷ cs) = let rest = skip_digits cs in if is_digit c then rest else c ∷ cs

-- `\d+: ` and the group behind it.
abbrev pub after_status : Code → Option Code
after_status [] = none
after_status (c ∷ cs) = if is_digit c then strip (codes ": ") (skip_digits cs) else none

-- The group of /^API \d+: ([\s\S]*)$/.
unfoldable pub api_text : Code → Option Code
api_text text = elim (strip (codes "API ") text) [ none ↦ none | some rest ↦ after_status rest ]

-- What `detail` of a body is.
pub data Detail : Type 0 where
  text : Code → Detail
  errors : List (Option Code) → Detail
  other : Detail

abbrev pub or_else : Code → Code → Code
or_else [] d = d
or_else (c ∷ cs) d = c ∷ cs

abbrev pub without_prefix : Code → Code → Code
without_prefix p s = strip p s otherwise s

abbrev pub join_words : Code → Code → Code
join_words [] later = later
join_words (c ∷ cs) [] = c ∷ cs
join_words (c ∷ cs) (d ∷ ds) = (c ∷ cs) ++ b' ' ∷ d ∷ ds

-- `.map(…).filter(Boolean).join(" ")`
unfoldable pub join_errors : List (Option Code) → Code
join_errors [] = []
join_errors (e ∷ es) =
    join_words (without_prefix (codes "Value error, ") (e otherwise [])) (join_errors es)

module _ (parse : Code → Option Detail) where
  abbrev pub body_message : Code → Code → Option Detail → Code
  body_message body default (some (text d)) = d
  body_message body default (some (errors es)) = or_else (join_errors es) default
  body_message body default (some other) = or_else body default
  body_message body default none = or_else body default

  -- `none` for a thrown value that is no `Error`.
  unfoldable pub api_error_message : Option Code → Code → Code
  api_error_message none default = default
  api_error_message (some said) default = elim (api_text said) [
    | none ↦ or_else said default
    | some body ↦ body_message body default (parse body)
  ]
