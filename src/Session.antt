-- ===== src/Session.antt =====
-- The session cookie of this site: the route handlers of frontend/src/app/api/auth, with
-- parseSetCookie and the forwardRefreshCookie of _cookie.ts, which are the same code.
-- Headers and bodies are lists of code points, the answer of the backend is an argument (`none`
-- where the fetch fails), and `parse_int` is JavaScript's `parseInt`, `none` for NaN.
use travel_planner.Base.{
  ℕ, ◌+◌, ◌==◌, String, Bool, true, false, not, ◌&&◌, Option, none, some, List, [], ◌∷◌, ◌++◌, map,
  find, keep, leb, if◌then◌else◌, ◌otherwise◌, is_some, Code, codes, code_eq, is_space,
}
use mathlib.Core.List.{reverse}
pub mod Jar
pub mod Forward

-- `s.split(c)`: the first part and the others.
abbrev pub split : ℕ → Code → Code × List Code
split c [] = ([], [])
split c (x ∷ xs) =
    let (first, rest) = split c xs in if x == c then ([], first ∷ rest) else (x ∷ first, rest)

abbrev pub skip_spaces : Code → Code
skip_spaces [] = []
skip_spaces (x ∷ xs) = let rest = skip_spaces xs in if is_space x then rest else x ∷ xs

-- `s.trim()`
abbrev pub trim_code : Code → Code
trim_code text = reverse (skip_spaces (reverse (skip_spaces text)))

-- `s.toLowerCase()` on ASCII letters.
abbrev pub lower : Code → Code
lower text = map (λ c. if leb 65 c && leb c 90 then c + 32 else c) text

-- `const [k, v] = part.split("=")`: what follows a second `=` is dropped.
abbrev pub pair_of : Code → Code × Option Code
pair_of part = let (k, rest) = split 61 part in (k, elim rest [ [] ↦ none | v ∷ _ ↦ some v ])

-- The attributes, the latest first, each with its text or `none` for `true`.
abbrev pub attribute_of : Code → Code × Option Code
attribute_of part =
    let (k, v) = pair_of part in
    (lower (trim_code k), elim v [ none ↦ none | some text ↦ some (trim_code text) ])

abbrev pub attributes : List Code → List (Code × Option Code)
attributes parts = reverse (map attribute_of parts)

abbrev pub attribute : String → List (Code × Option Code) → Option (Option Code)
attribute name attrs = elim (find (λ a. code_eq a.0 (codes name)) attrs) [
  | none ↦ none
  | some (k, v) ↦ some v
]

-- A cookie of this site, always httpOnly, of sameSite "lax" and path "/".
pub record Cookie : Type 0 where
  pub name : Code
  pub value : Option Code
  pub max_age : Option ℕ
  pub secure : Bool

abbrev pub is_named : Code → Cookie → Bool
is_named name c = code_eq c.name name

-- `jar.get`, `jar.delete` and `jar.set`.
abbrev pub get : Code → List Cookie → Option Cookie
get name jar = find (is_named name) jar

abbrev pub delete : Code → List Cookie → List Cookie
delete name jar = keep (λ c. not (is_named name c)) jar

abbrev pub set : Cookie → List Cookie → List Cookie
set c jar = c ∷ delete c.name jar

abbrev pub refresh_token : Code
refresh_token = codes "refresh_token"

pub record Response : Type 0 where
  pub status : ℕ
  pub body : Option Code

-- An answer of the backend.
pub record Upstream : Type 0 where
  pub status : ℕ
  pub set_cookie : Option Code
  pub body : Code

abbrev pub is_ok : Upstream → Bool
is_ok up = leb 200 up.status && leb up.status 299

abbrev pub pass_on : Upstream → Response
pass_on up = record { status = up.status; body = some up.body }

module _ (parse_int : Code → Option ℕ) where
  -- 30 days, unless Max-Age has a text.
  abbrev pub max_age_of : List (Code × Option Code) → Option ℕ
  max_age_of attrs = elim (attribute "max-age" attrs) [
    | some (some text) ↦ parse_int text
    | _ ↦ some 2592000
  ]

  abbrev pub secure_of : List (Code × Option Code) → Bool
  secure_of attrs = elim (attribute "secure" attrs) [ some none ↦ true | _ ↦ false ]

  abbrev pub cookie_of : Code × List Code → Cookie
  cookie_of (first, others) =
      let (name, value) = pair_of (trim_code first) in
      let attrs = attributes (map trim_code others) in
      record { name = name; value = value; max_age = max_age_of attrs; secure = secure_of attrs }

  -- An empty header is falsy.
  unfoldable pub forward_refresh_cookie : Option Code → List Cookie → List Cookie
  forward_refresh_cookie none jar = jar
  forward_refresh_cookie (some []) jar = jar
  forward_refresh_cookie (some (c ∷ cs)) jar = set (cookie_of (split 59 (c ∷ cs))) jar

  -- `POST` of login and of register.
  unfoldable pub sign_in : Upstream → List Cookie → Response × List Cookie
  sign_in up jar = (pass_on up, forward_refresh_cookie up.set_cookie jar)

  abbrev pub without_dead : Upstream → List Cookie → List Cookie
  without_dead up jar =
      if up.status == 401 && is_some (get refresh_token jar) then delete refresh_token jar else jar

  unfoldable pub refresh : Upstream → List Cookie → Response × List Cookie
  refresh up jar = (pass_on up, forward_refresh_cookie up.set_cookie (without_dead up jar))

  unfoldable pub change_password : Upstream → List Cookie → Response × List Cookie
  change_password up jar =
      (pass_on up, if is_ok up then forward_refresh_cookie up.set_cookie jar else jar)

-- The refresh token that logout and refresh send on.
pub sent_token : List Cookie → Option Code
sent_token jar = elim (get refresh_token jar) [ none ↦ none | some c ↦ c.value ]

unfoldable pub logout : Option Upstream → List Cookie → Response × List Cookie
logout up jar = (record { status = 204; body = none }, delete refresh_token jar)

unfoldable pub logout_all : Upstream → List Cookie → Response × List Cookie
logout_all up jar =
    (record { status = up.status; body = none }, if is_ok up then delete refresh_token jar else jar)

unfoldable pub delete_me : Upstream → List Cookie → Response × List Cookie
delete_me up jar = (
  record { status = up.status; body = if up.status == 204 then none else some up.body },
  if is_ok up then delete refresh_token jar else jar,
)

-- `GET` and `PATCH` of me leave the jar alone.
unfoldable pub me : Upstream → List Cookie → Response × List Cookie
me up jar = (pass_on up, jar)
