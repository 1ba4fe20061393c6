-- ===== src/Proxy.antt =====
-- Who may open which page: frontend/src/proxy.ts, and safeNext of frontend/src/lib/redirect.ts.
use travel_planner.Base.{
  String, Bool, true, false, not, ◌&&◌, Option, none, some, List, [], ◌∷◌, any, if◌then◌else◌, Code,
  codes, starts_with, includes_code,
}
pub mod Redirects

abbrev pub protected_prefixes : List Code
protected_prefixes = codes "/trips" ∷ codes "/admin" ∷ codes "/settings" ∷ codes "/map" ∷ []

abbrev pub auth_routes : List Code
auth_routes = codes "/login" ∷ codes "/register" ∷ []

-- A requested URL: its path, its parameter `next`, and the other parameters.
pub record Url : Type 0 where
  pub pathname : Code
  pub next : Option Code
  pub params : String

pub data Outcome : Type 0 where
  pass : Outcome
  redirect : Url → Outcome

abbrev pub is_under : List Code → Code → Bool
is_under prefixes path = any (starts_with path) prefixes

abbrev pub to_login : Url → Url
to_login url = record url { pathname = codes "/login"; next = some url.pathname }

abbrev pub to_trips : Url → Url
to_trips url = record url { pathname = codes "/trips" }

unfoldable pub proxy : (has_refresh_cookie : Bool) → Url → Outcome
proxy has_refresh_cookie url =
    if is_under protected_prefixes url.pathname && not has_refresh_cookie
    then redirect (to_login url)
    else if is_under auth_routes url.pathname && has_refresh_cookie
    then redirect (to_trips url)
    else pass

-- The page's own test of a destination. 92 is the backslash; the empty text is falsy.
unfoldable pub safe_next : Option Code → Code → Code
safe_next none fallback = fallback
safe_next (some []) fallback = fallback
safe_next (some (c ∷ cs)) fallback =
    if starts_with (c ∷ cs) (codes "/")
      && not (starts_with (c ∷ cs) (codes "//"))
      && not (includes_code (c ∷ cs) 92)
    then c ∷ cs
    else fallback
