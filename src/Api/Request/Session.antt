-- ===== src/Api/Request/Session.antt =====
-- Tokens, retries and sign-out.
use travel_planner.Base.{
  ℕ, ◌+◌, ◌≤◌, ◌==◌, ◌≡◌, refl, Bool, true, false, not, ◌&&◌, Option, none, some, List, [], ◌∷◌,
  Code, codes, starts_with, tally, Bool-cases, Option-cases, inl, inr, arith, ◌⊎◌, ◌≢◌, ◌∙◌,
}
use travel_planner.Api.{
  Method, Json, Response, session_expired, network, ok, err, Effect, sent, refresh_sent, to_login,
  Api, Net,
}
use travel_planner.Api.Paths.{version_header}
use travel_planner.Api.Request.{
  Out, held, does, fetch_of, plain_answer, guarded_answer, answered, request_retry, new_token,
  after_refresh, request,
}

abbrev pub is_fetch : Effect → Bool
is_fetch (sent method path bearer if_match) = true
is_fetch _ = false

abbrev pub is_refresh : Effect → Bool
is_refresh refresh_sent = true
is_refresh _ = false

-- The last effect sends the browser to the login page.
abbrev pub leaves : List Effect → Bool
leaves (to_login ∷ _) = true
leaves _ = false

-- What an answer leaves alone, and what it never throws.
pub record Settles {P : Type 0} (s : Api) (out : Out P) : Type 0 where
  token : out.1.access_token ≡ s.access_token
  location : out.1.location ≡ s.location
  signed_in : out.0 ≢ err session_expired
  pub fetches : tally is_fetch out.1.log ≡ tally is_fetch s.log
  pub refreshes : tally is_refresh out.1.log ≡ tally is_refresh s.log

module _ {P : Type 0} (path : Code) (res : Response P) (s : Api) where
  plain_answer-Settles : Settles s (plain_answer path res s)
  unfolding plain_answer
  plain_answer-Settles = ground arith

  guarded_answer-Settles : Settles s (guarded_answer path res s)
  unfolding guarded_answer
  guarded_answer-Settles = ground (arith, plain_answer-Settles)

  pub answered-Settles : Settles s (answered path res s)
  unfolding answered
  answered-Settles = ground (arith, guarded_answer-Settles)

module _ {P : Type 0} (net : Net P) (method : Method) (path : Code) where
  retry-Settles :
      (s : Api)
      → ((request_retry net method path s).0 ≢ err session_expired)
        × ((request_retry net method path s).1.access_token ≡ s.access_token)
        × (tally is_fetch (request_retry net method path s).1.log ≡ tally is_fetch s.log + 1)
        × (tally is_refresh (request_retry net method path s).1.log ≡ tally is_refresh s.log)
  unfolding request_retry
  retry-Settles s = elim (Option-cases (net.respond (does (fetch_of method path s) s).log)) [
    | inl failed ↦ rw (failed, request_retry) (ground arith)
    | inr (res, here) ↦
        let settled = answered-Settles path res (does (fetch_of method path s) s) in
        rw (here, request_retry) (ground arith)
  ]

  abbrev pub first : Api → Api
  first s = does (fetch_of method path s) s

  abbrev pub is_unauthorized : Response P → Bool
  is_unauthorized res = res.status == 401 && not (starts_with path (codes "/auth/"))

  pub request_unauthorized :
      (s : Api) (res : Response P)
      → net.respond (first s).log ≡ some res
      → is_unauthorized res ≡ true
      → request net method path s
        ≡ after_refresh net method path
            (new_token net (refresh_sent ∷ (first s).log))
            (does refresh_sent (first s))
  unfolding request
  request_unauthorized s res here denied = rw (here, request) (rw denied refl)

  pub request-answered :
      (s : Api) (res : Response P)
      → net.respond (first s).log ≡ some res
      → is_unauthorized res ≡ false
      → request net method path s ≡ answered path res (first s)
  unfolding request
  request-answered s res here served = rw (here, request) (rw served refl)

  pub request_unsent :
      (s : Api)
      → net.respond (first s).log ≡ none
      → request net method path s ≡ (err network, first s)
  unfolding request
  request_unsent s failed = rw (failed, request) refl

  -- What a request does to the session and to the traffic.
  record Bounded (s : Api) (out : Out P) : Type 0 where
    pub fetches : tally is_fetch out.1.log ≤ tally is_fetch s.log + 2
    pub refreshes : tally is_refresh out.1.log ≤ tally is_refresh s.log + 1
    expired :
        out.0 ≡ err session_expired
        → (out.1.access_token ≡ none)
          × ((starts_with out.1.location (codes "/login") ≡ true) ⊎ (leaves out.1.log ≡ true))

  after_refresh-Bounded :
      (s : Api) (token : Option Code)
      → Bounded s (after_refresh net method path token (does refresh_sent (first s)))
  unfolding after_refresh
  after_refresh-Bounded s none = ground arith
  after_refresh-Bounded s (some t) =
      ground (arith, retry-Settles (record (does refresh_sent (first s)) { access_token = some t }))

  request-Bounded : (s : Api) → Bounded s (request net method path s)
  request-Bounded s = elim (Option-cases (net.respond (first s).log)) [
    | inl failed ↦ rw (request_unsent s failed) (ground arith)
    | inr (res, here) ↦ elim (Bool-cases (is_unauthorized res)) [
      | inl denied ↦
          rw (request_unauthorized s res here denied)
            (after_refresh-Bounded s (new_token net (refresh_sent ∷ (first s).log)))
      | inr served ↦
          let settled = answered-Settles path res (first s) in
          rw (request-answered s res here served) (ground arith)
    ]
  ]

-- Whatever the server answers, a request fetches its path at most twice and refreshes the token at
-- most once.
pub request-traffic :
    {P : Type 0} (net : Net P) (method : Method) (path : Code) (s : Api)
    → (tally is_fetch (request net method path s).1.log ≤ tally is_fetch s.log + 2)
      × (tally is_refresh (request net method path s).1.log ≤ tally is_refresh s.log + 1)
request-traffic net method path s =
    let b = request-Bounded net method path s in (b.fetches, b.refreshes)

-- A request that ends as an expired session leaves no token behind, and the browser is on the login
-- page or has just been sent there.
pub request-expired :
    {P : Type 0} (net : Net P) (method : Method) (path : Code) (s : Api)
    → (request net method path s).0 ≡ err session_expired
    → ((request net method path s).1.access_token ≡ none)
      × ((starts_with (request net method path s).1.location (codes "/login") ≡ true)
          ⊎ (leaves (request net method path s).1.log ≡ true))
request-expired net method path s = (request-Bounded net method path s).expired

-- The server accepts exactly one token: it answers 401 to any fetch without it.
abbrev pub Wants : {P : Type 0} → Code → Response P → Net P → Type 0
Wants token good net =
    (method : Method) (path : Code) (bearer : Option Code) (if_match : Option ℕ) (log : List Effect)
    → ((bearer ≡ some token) × (net.respond (sent method path bearer if_match ∷ log) ≡ some good))
      ⊎ ((bearer ≢ some token)
          × ((res : Response _) × (net.respond (sent method path bearer if_match ∷ log) ≡ some res)
              × (res.status ≡ 401)))

held-some :
    (token : Option Code) {c : ℕ} {cs : Code} → held token ≡ some (c ∷ cs) → token ≡ some (c ∷ cs)
held-some none h = absurd (cc)
held-some (some []) h = absurd (cc)
held-some (some (d ∷ ds)) h = h

module _ {P : Type 0} (net : Net P) (c : ℕ) (cs : Code) (good : Response P) (json : Json P)
    (method : Method) (path : Code) (wants : Wants (c ∷ cs) good net) (fine : good.status ≡ 200)
    (decoded : good.json ≡ some json)
    (fresh : (log : List Effect) → net.refreshed log ≡ some (true, some (c ∷ cs)))
    (elsewhere : starts_with path (codes "/auth/") ≡ false) where
  good_answer :
      (s : Api)
      → ((answered path good s).0 ≡ ok (some json.payload))
        × ((answered path good s).1.access_token ≡ s.access_token)
        × ((answered path good s).1.log ≡ s.log)
  unfolding answered guarded_answer plain_answer
  good_answer s = ground arith

  retried :
      (s : Api)
      → s.access_token ≡ some (c ∷ cs)
      → ((request_retry net method path s).0 ≡ ok (some json.payload))
        × ((request_retry net method path s).1.access_token ≡ some (c ∷ cs))
        × ((request_retry net method path s).1.log ≡ fetch_of method path s ∷ s.log)
  unfolding request_retry
  retried s token =
      let bearer : held s.access_token ≡ some (c ∷ cs) = rw token refl in
      elim (wants method path (held s.access_token) (version_header path method s.trip_versions)
        s.log) [
          | inl (same, here) ↦
              let (payload, kept, sent_once) = good_answer (does (fetch_of method path s) s) in
              rw (here, request_retry) (payload, kept ∙ token, sent_once)
          | inr (other, answer) ↦ absurd (other bearer)
        ]

  -- The client after a refused fetch and the refresh.
  abbrev pub renewed_after : Api → Api
  renewed_after s = record (does refresh_sent (first net method path s)) {
    access_token = some (c ∷ cs);
  }

  -- A server accepts one token only, and a refresh gives that token. Then a request outside /auth/
  -- returns the server's payload and leaves the accepted token in place, whatever token the client
  -- held before: the accepted one costs one fetch, and a stale one or none costs that fetch, one
  -- refresh and one retry.
  pub request-recovers :
      (s : Api)
      → ((request net method path s).0 ≡ ok (some json.payload))
        × ((request net method path s).1.access_token ≡ some (c ∷ cs))
        × (((held s.access_token ≡ some (c ∷ cs))
              × ((request net method path s).1.log ≡ fetch_of method path s ∷ s.log))
            ⊎ ((held s.access_token ≢ some (c ∷ cs))
                × ((request net method path s).1.log
                    ≡ fetch_of method path (renewed_after s)
                      ∷ refresh_sent
                      ∷ fetch_of method path s
                      ∷ s.log)))
  unfolding after_refresh
  request-recovers s =
      elim (wants method path (held s.access_token) (version_header path method s.trip_versions)
        s.log) [
          | inl (same, here) ↦
              let served : is_unauthorized net method path good ≡ false = ground arith in
              let (payload, kept, sent_once) = good_answer (first net method path s) in
              rw (request-answered net method path s good here served)
                (payload, kept ∙ held-some s.access_token same, inl (same, sent_once))
          | inr (other, (res, here, denied)) ↦
              let unauthorized : is_unauthorized net method path res ≡ true = ground arith in
              let renewed : new_token net (refresh_sent ∷ (first net method path s).log)
                  ≡ some (c ∷ cs) =
                rw (fresh (refresh_sent ∷ (first net method path s).log), new_token) refl in
              let (payload, token, sent_twice) = retried (renewed_after s) refl in
              rw (request_unauthorized net method path s res here unauthorized)
                (rw renewed (payload, token, inr (other, sent_twice)))
        ]
