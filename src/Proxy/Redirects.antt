-- ===== src/Proxy/Redirects.antt =====
-- Redirects end, stay on the site, and bring the user back.
use travel_planner.Base.{
  ℕ, ◌==◌, map, All, ◌≡◌, refl, sym, ◌∙◌, Bool, true, false, not, ◌&&◌, Option, none, some, List,
  [], ◌∷◌, ◌⊎◌, inl, inr, arith, Bool-cases, if◌then◌else◌, Code, codes, starts_with, includes_code,
}
use travel_planner.Proxy.{
  Url, pass, redirect, is_under, protected_prefixes, auth_routes, proxy, safe_next, to_login,
  to_trips,
}

signed_in_test :
    {A : Type 0} (a b : Bool) (x y z : A)
    → (if a && not true then x else if b && true then y else z) ≡ (if b then y else z)
signed_in_test true true x y z = refl
signed_in_test true false x y z = refl
signed_in_test false true x y z = refl
signed_in_test false false x y z = refl

signed_out_test :
    {A : Type 0} (a b : Bool) (x y z : A)
    → (if a && not false then x else if b && false then y else z) ≡ (if a then x else z)
signed_out_test true b x y z = refl
signed_out_test false true x y z = refl
signed_out_test false false x y z = refl

pub proxy-here :
    (url : Url)
    → proxy true url ≡ (if is_under auth_routes url.pathname then redirect (to_trips url) else pass)
unfolding proxy
proxy-here url =
    signed_in_test (is_under protected_prefixes url.pathname) (is_under auth_routes url.pathname)
      (redirect (to_login url)) (redirect (to_trips url)) pass

proxy-away :
    (url : Url)
    → proxy false url
      ≡ (if is_under protected_prefixes url.pathname then redirect (to_login url) else pass)
unfolding proxy
proxy-away url =
    signed_out_test (is_under protected_prefixes url.pathname) (is_under auth_routes url.pathname)
      (redirect (to_login url)) (redirect (to_trips url)) pass

target_of :
    (b : Bool) (url target : Url)
    → (if b then redirect url else pass) ≡ redirect target
    → url ≡ target
target_of true url target e = cc
target_of false url target e = absurd (cc)

-- A redirect is answered at once: with the same cookie, the proxy lets the page that it sent the
-- browser to pass.
pub proxy-settles :
    (has_refresh_cookie : Bool) (url target : Url)
    → proxy has_refresh_cookie url ≡ redirect target
    → proxy has_refresh_cookie target ≡ pass
unfolding proxy
proxy-settles true url target e =
    rw
      (sym (
        target_of (is_under auth_routes url.pathname) (to_trips url) target
          (sym (proxy-here url) ∙ e)))
      refl
proxy-settles false url target e =
    rw
      (sym (
        target_of (is_under protected_prefixes url.pathname) (to_login url) target
          (sym (proxy-away url) ∙ e)))
      refl

-- A destination is the fallback, or a path of this site: it begins with one slash, and neither a
-- second slash nor a backslash follows.
pub safe_next-local :
    (next : Option Code) (fallback : Code)
    → (safe_next next fallback ≡ fallback)
      ⊎ ((starts_with (safe_next next fallback) (codes "/") ≡ true)
          × (starts_with (safe_next next fallback) (codes "//") ≡ false)
          × (starts_with (safe_next next fallback) (codes "/\\") ≡ false))
unfolding safe_next
safe_next-local none fallback = inl refl
safe_next-local (some []) fallback = inl refl
safe_next-local (some (c ∷ [])) fallback = ground arith
safe_next-local (some (c ∷ d ∷ cs)) fallback = ground arith

safe_next-clean :
    (d : ℕ) (rest path fallback : Code)
    → (d == 47) ≡ false
    → starts_with path (47 ∷ d ∷ rest) ≡ true
    → includes_code path 92 ≡ false
    → safe_next (some path) fallback ≡ path
unfolding safe_next
safe_next-clean d rest [] fallback h s c = absurd (cc)
safe_next-clean d rest (x ∷ []) fallback h s c = absurd (ground arith)
safe_next-clean d rest (x ∷ y ∷ ys) fallback h s c = ground arith

safe_next-under :
    (prefixes : List (ℕ × Code)) (path fallback : Code)
    → All (λ p. (p.0 == 47) ≡ false) prefixes
    → is_under (map (λ p. 47 ∷ p.0 ∷ p.1) prefixes) path ≡ true
    → includes_code path 92 ≡ false
    → safe_next (some path) fallback ≡ path
safe_next-under [] path fallback named under c = absurd (cc)
safe_next-under ((d, rest) ∷ ps) path fallback (here, named) under c =
    elim (Bool-cases (starts_with path (47 ∷ d ∷ rest))) [
      | inl it ↦ safe_next-clean d rest path fallback here it c
      | inr other ↦ safe_next-under ps path fallback named (simp other at under) c
    ]

-- A protected page at a path without a backslash is a destination.
pub safe_next-asked :
    (path fallback : Code)
    → is_under protected_prefixes path ≡ true
    → includes_code path 92 ≡ false
    → safe_next (some path) fallback ≡ path
safe_next-asked path fallback =
    safe_next-under
      ((116, codes "rips") ∷ (97, codes "dmin") ∷ (115, codes "ettings") ∷ (109, codes "ap") ∷ [])
      path fallback (refl, (refl, (refl, (refl, tt))))

-- A visitor without a session who asks for a protected page, at a path without a backslash, is
-- sent to the login page, and the destination that the login page accepts is the page asked for.
pub safe_next-proxy :
    (url : Url) (fallback : Code)
    → is_under protected_prefixes url.pathname ≡ true
    → includes_code url.pathname 92 ≡ false
    → (target : Url) × (proxy false url ≡ redirect target)
      × (target.pathname ≡ codes "/login")
      × (safe_next target.next fallback ≡ url.pathname)
unfolding safe_next proxy
safe_next-proxy url fallback asked clean = (
  to_login url,
  rw (proxy-away url) (rw asked refl),
  refl,
  safe_next-asked url.pathname fallback asked clean,
)
