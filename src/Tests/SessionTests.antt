-- ===== src/Tests/SessionTests.antt =====
-- The session cookie on concrete headers.
use travel_planner.Base.{
  ℕ, ◌≡◌, refl, true, false, Option, none, some, List, [], ◌∷◌, Code, codes, code_eq,
}
use travel_planner.Proxy.{Url, pass, proxy}
use travel_planner.Session.{
  Cookie, Upstream, refresh_token, forward_refresh_cookie, refresh, sign_in,
}
use travel_planner.Session.Jar.{has_session, refresh-ends_loop}

abbrev parse_none : Code → Option ℕ
parse_none text = none

abbrev held : List Cookie
held =
    record { name = refresh_token; value = some (codes "old"); max_age = some 60; secure = true }
    ∷ []

abbrev backend : ℕ → Option Code → Upstream
backend status header = record { status = status; set_cookie = header; body = [] }

sign_in_test :
    (sign_in parse_none (backend 200 (some (codes "refresh_token=abc; Path=/; Secure"))) held).1
    ≡ record {
      name = refresh_token;
      value = some (codes "abc");
      max_age = some 2592000;
      secure = true;
    }
      ∷ []
unfolding sign_in forward_refresh_cookie code_eq
sign_in_test = refl

abbrev login_url : Url
login_url = record { pathname = codes "/login"; next = none; params = "" }

refresh-ends_loop_example :
    (has_session (refresh parse_none (backend 401 none) held).1 ≡ false)
    × (proxy (has_session (refresh parse_none (backend 401 none) held).1) login_url ≡ pass)
refresh-ends_loop_example =
    refresh-ends_loop parse_none (backend 401 none) held login_url refl refl refl
