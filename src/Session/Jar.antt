-- ===== src/Session/Jar.antt =====
-- What the jar holds, and what the proxy makes of it.
use travel_planner.Base.{
  ℕ, ◌≡◌, refl, ap, inl, inr, Bool, true, false, Option, none, List, [], ◌∷◌, arith, Bool-cases,
  if◌then◌else◌, is_some, Code, codes,
}
use travel_planner.Proxy.{Url, pass, proxy}
use travel_planner.Session.{
  Cookie, get, delete, refresh_token, Upstream, forward_refresh_cookie, refresh, logout, logout_all,
  delete_me, is_ok,
}

-- What the proxy asks: `request.cookies.has("refresh_token")`.
abbrev pub has_session : List Cookie → Bool
has_session jar = is_some (get refresh_token jar)

get-delete : (name : Code) (jar : List Cookie) → get name (delete name jar) ≡ none
get-delete name [] = refl
get-delete name (c ∷ jar) = ground (arith, get-delete name jar)

-- A refresh token that the backend rejects with a 401, setting no other, is gone from the jar, and
-- the proxy then lets the login page pass instead of sending the browser back to the trips.
pub refresh-ends_loop :
    (parse_int : Code → Option ℕ) (up : Upstream) (jar : List Cookie) (url : Url)
    → up.status ≡ 401
    → up.set_cookie ≡ none
    → url.pathname ≡ codes "/login"
    → (has_session (refresh parse_int up jar).1 ≡ false)
      × (proxy (has_session (refresh parse_int up jar).1) url ≡ pass)
unfolding refresh forward_refresh_cookie proxy
refresh-ends_loop parse_int up jar url dead silent here = (gone, rw (gone, here) refl)
  where
    gone : has_session (refresh parse_int up jar).1 ≡ false
    gone =
        rw (dead, silent)
          (elim (Bool-cases (is_some (get refresh_token jar))) [
            | inl held ↦ rw held (ap is_some (get-delete refresh_token jar))
            | inr free ↦ rw free free
          ])

has_session-delete :
    (b : Bool) (jar : List Cookie)
    → has_session (if b then delete refresh_token jar else jar)
      ≡ (if b then false else has_session jar)
has_session-delete true jar = ap is_some (get-delete refresh_token jar)
has_session-delete false jar = refl

-- Signing out ends the session of this browser, whether or not the backend could be reached;
-- signing out everywhere and deleting the account end it if the backend agrees, and leave it else.
pub logout-ends :
    (reached : Option Upstream) (up : Upstream) (jar : List Cookie)
    → (has_session (logout reached jar).1 ≡ false)
      × (has_session (logout_all up jar).1 ≡ (if is_ok up then false else has_session jar))
      × (has_session (delete_me up jar).1 ≡ (if is_ok up then false else has_session jar))
unfolding logout logout_all delete_me
logout-ends reached up jar = (
  ap is_some (get-delete refresh_token jar),
  has_session-delete (is_ok up) jar,
  has_session-delete (is_ok up) jar,
)
