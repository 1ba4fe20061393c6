-- ===== src/Api/Paths.antt =====
-- The two path patterns of api.ts, and the remembered versions of trips.
-- TRIP_PATH is /^\/trips\/([0-9a-f-]{36})(\/[^?]*)?/, and VERSIONED is
-- /^\/(waypoints|itinerary|radius|corridor|calculate-route)(\/|$)/.
use travel_planner.Base.{
  ℕ, zero, suc, ◌+◌, ◌==◌, ltb, leb, Bool, true, false, not, ◌&&◌, ◌||◌, Option, none, some, List,
  [], ◌∷◌, ◌++◌, if◌then◌else◌, Code, codes, code_eq, strip, starts_with, any, ◌otherwise◌, is_some,
}
use travel_planner.Api.{Method, get, patch, Api}
pub mod Laws

abbrev pub is_id_code : ℕ → Bool
is_id_code c = (leb 48 c && leb c 57) || (leb 97 c && leb c 102) || c == 45

-- The next `n` code units, if they all belong to an id, and what follows them.
unfoldable pub take_id : ℕ → Code → Option (Code × Code)
take_id zero xs = some ([], xs)
take_id (suc n) [] = none
take_id (suc n) (x ∷ xs) =
    let rest : Option (Code × Code) = elim (take_id n xs) [
      | none ↦ none
      | some (id, tail) ↦ some (x ∷ id, tail)
    ] in
    if is_id_code x then rest else none

-- `[^?]*`
unfoldable pub before_query : Code → Code
before_query [] = []
before_query (x ∷ xs) = let rest = x ∷ before_query xs in if x == b'?' then [] else rest

-- The optional second group.
unfoldable pub sub_path : Code → Option Code
sub_path [] = none
sub_path (x ∷ xs) = if x == b'/' then some (x ∷ before_query xs) else none

-- The groups of TRIP_PATH.
unfoldable pub trip_path : Code → Option (Code × Option Code)
trip_path path = elim (strip (codes "/trips/") path) [
  | none ↦ none
  | some rest ↦ elim (take_id 36 rest) [ none ↦ none | some (id, tail) ↦ some (id, sub_path tail) ]
]

-- `(\/|$)` after a keyword
abbrev pub ends_segment : Code → Bool
ends_segment [] = true
ends_segment (x ∷ xs) = x == b'/'

abbrev pub is_segment : Code → Code → Bool
is_segment sub word = elim (strip word sub) [ none ↦ false | some rest ↦ ends_segment rest ]

abbrev pub versioned_words : List Code
versioned_words =
    codes "/waypoints"
    ∷ codes "/itinerary"
    ∷ codes "/radius"
    ∷ codes "/corridor"
    ∷ codes "/calculate-route"
    ∷ []

-- VERSIONED.test
unfoldable pub is_versioned : Code → Bool
is_versioned sub = any (is_segment sub) versioned_words

-- `tripVersions.get`
unfoldable pub get_version : Code → List (Code × ℕ) → Option ℕ
get_version id [] = none
get_version id ((k, v) ∷ m) = if code_eq k id then some v else get_version id m

-- `tripVersions.set`
unfoldable pub set_version : Code → ℕ → List (Code × ℕ) → List (Code × ℕ)
set_version id v [] = (id, v) ∷ []
set_version id v ((k, w) ∷ m) = if code_eq k id then (k, v) ∷ m else (k, w) ∷ set_version id v m

-- `getTripVersion` and `rememberTripVersion`
pub get_trip_version : Code → Api → Option ℕ
get_trip_version id s = get_version id s.trip_versions

pub remember_trip_version : Code → ℕ → Api → Api
remember_trip_version id v s = record s { trip_versions = set_version id v s.trip_versions }

abbrev pub is_read : Method → Bool
is_read Method.get = true
is_read _ = false

abbrev pub is_patch : Method → Bool
is_patch Method.patch = true
is_patch _ = false

abbrev pub is_empty : Code → Bool
is_empty [] = true
is_empty (x ∷ xs) = false

-- The version that `versionHeader` sends as If-Match.
unfoldable pub version_header : Code → Method → List (Code × ℕ) → Option ℕ
version_header path method versions = elim (trip_path path) [
  | none ↦ none
  | some (id, sub) ↦
      if is_read method
      then none
      else if (is_empty (sub otherwise []) && is_patch method) || is_versioned (sub otherwise [])
      then get_version id versions
      else none
]

-- `noteVersions` with the header's version and the body's.
unfoldable pub note_versions : Code → Option ℕ → Option ℕ → List (Code × ℕ) → List (Code × ℕ)
note_versions path header body versions = elim (trip_path path) [
  | none ↦ versions
  | some (id, sub) ↦ elim header [
    | some v ↦ set_version id v versions
    | none ↦ elim body [
      | none ↦ versions
      | some v ↦ if is_some sub then versions else set_version id v versions
    ]
  ]
]
