-- ===== src/Api/Paths/Laws.antt =====
-- Trip paths and remembered versions.
use travel_planner.Base.{
  ℕ, zero, suc, ◌==◌, ◌≡◌, refl, true, false, Option, some, List, [], ◌∷◌, ◌++◌, if◌then◌else◌,
  Code, codes, code_eq, code_eq_iff, All, length, arith, ap, ◌∙◌,
}
use travel_planner.Api.{Method}
use travel_planner.Api.Paths.{
  is_id_code, take_id, before_query, sub_path, trip_path, is_versioned, get_version, set_version,
  is_read, version_header, note_versions,
}

pub get_version-set_version :
    (id key : Code) (v : ℕ) (m : List (Code × ℕ))
    → get_version key (set_version id v m) ≡ (if code_eq id key then some v else get_version key m)
unfolding get_version set_version
get_version-set_version id key v [] = refl
get_version-set_version id key v ((k, w) ∷ m) = ground (
  arith,
  get_version-set_version id key v m,
  code_eq_iff k id,
  code_eq_iff k key,
  code_eq_iff id key,
)

-- The id of a trip: 36 hexadecimal digits and dashes.
abbrev pub IsTripId : Code → Type 0
IsTripId id = (length id ≡ 36) × All (λ c. is_id_code c ≡ true) id

take_id-append :
    (n : ℕ) (id rest : Code)
    → length id ≡ n
    → All (λ c. is_id_code c ≡ true) id
    → take_id n (id ++ rest) ≡ some (id, rest)
unfolding take_id
take_id-append zero [] rest size ok = refl
take_id-append zero (c ∷ cs) rest size ok = absurd (omega arith)
take_id-append (suc n) [] rest size ok = absurd (omega arith)
take_id-append (suc n) (c ∷ cs) rest size (is_c, ok) =
    rw (is_c, take_id) (rw (take_id-append n cs rest (omega arith) ok) refl)

before_query-append :
    (sub query : Code)
    → All (λ c. (c == b'?') ≡ false) sub
    → before_query (sub ++ b'?' ∷ query) ≡ sub
unfolding before_query
before_query-append [] query ok = refl
before_query-append (c ∷ cs) query (is_c, ok) =
    rw (is_c, before_query) (ap (λ r. c ∷ r) (before_query-append cs query ok))

pub trip_path_of :
    (id rest : Code)
    → IsTripId id
    → trip_path (codes "/trips/" ++ (id ++ rest)) ≡ some (id, sub_path rest)
unfolding trip_path
trip_path_of id rest (size, ok) = rw (take_id-append 36 id rest size ok, trip_path) refl

-- The client's paths for a part of a trip, `/trips/<id>/<sub>?<query>`, are read back as the trip's
-- id and the part, without the query.
pub trip_path-build :
    (id sub query : Code)
    → IsTripId id
    → All (λ c. (c == b'?') ≡ false) sub
    → trip_path (codes "/trips/" ++ (id ++ (b'/' ∷ (sub ++ b'?' ∷ query))))
      ≡ some (id, some (b'/' ∷ sub))
unfolding sub_path before_query
trip_path-build id sub query is_id ok =
    trip_path_of id (b'/' ∷ (sub ++ b'?' ∷ query)) is_id
    ∙ ap (λ s. some (id, some (b'/' ∷ s))) (before_query-append sub query ok)

-- After a response to any path of a trip gave version `v`, an edit of a versioned part of the trip
-- sends `v` as If-Match; and for another trip it sends what it sent before.
pub version_header-note_versions :
    (path edit : Code) (method : Method) (id other : Code) (sub : Option Code) (part : Code) (v : ℕ)
    (body : Option ℕ) (versions : List (Code × ℕ))
    → trip_path path ≡ some (id, sub)
    → trip_path edit ≡ some (other, some part)
    → is_read method ≡ false
    → is_versioned part ≡ true
    → version_header edit method (note_versions path (some v) body versions)
      ≡ (if code_eq id other then some v else version_header edit method versions)
unfolding version_header note_versions
version_header-note_versions path edit method id other sub part v body versions is_path is_edit
      writes versioned =
    rw (is_path, note_versions)
      (rw (is_edit, version_header)
        (rw (writes, versioned) (ground (arith, get_version-set_version id other v versions))))
