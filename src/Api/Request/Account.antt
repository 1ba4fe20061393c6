-- ===== src/Api/Request/Account.antt =====
-- Requests for the account itself, whose paths begin with /auth/.
use travel_planner.Base.{
  ◌≡◌, refl, true, none, ◌∷◌, ◌++◌, Code, codes, starts_with, strip-append, arith, Option-cases,
  inl, inr,
}
use travel_planner.Api.{Method, Response, Api, Net}
use travel_planner.Api.Paths.{trip_path}
use travel_planner.Api.Request.{
  does, fetch_of, conflicted, plain_answer, guarded_answer, answered, request,
}
use travel_planner.Api.Request.Session.{request-answered}

starts_with-append : (p xs : Code) → starts_with (p ++ xs) p ≡ true
starts_with-append p xs = rw (strip-append p xs, starts_with) refl

-- What the client has sent, and what it keeps of the session.
abbrev Untouched : Api → Api → Type 0
Untouched s t = (t.log ≡ s.log) × (t.access_token ≡ s.access_token) × (t.location ≡ s.location)

module _ {P : Type 0} (path : Code) (res : Response P) (s : Api) where
  plain_answer-Untouched : Untouched s (plain_answer path res s).1
  unfolding plain_answer
  plain_answer-Untouched = ground arith

  guarded_answer-Untouched : Untouched s (guarded_answer path res s).1
  unfolding guarded_answer
  guarded_answer-Untouched = ground (arith, plain_answer-Untouched)

  conflicted-Untouched : trip_path path ≡ none → Untouched s (conflicted path s)
  unfolding trip_path
  conflicted-Untouched outside = rw outside (refl, refl, refl)

  answered-Untouched : trip_path path ≡ none → Untouched s (answered path res s).1
  unfolding answered
  answered-Untouched outside =
      ground (arith, guarded_answer-Untouched, conflicted-Untouched outside)

-- A request under /auth/ costs exactly one fetch, whatever the server answers and also if it does
-- not answer: no refresh is sent, nothing is retried, and the client keeps its token and stays on
-- the page where it is.
pub request-own_account :
    {P : Type 0} (net : Net P) (method : Method) (rest : Code) (s : Api)
    → let after = (request net method (codes "/auth/" ++ rest) s).1 in
      (after.log ≡ fetch_of method (codes "/auth/" ++ rest) s ∷ s.log)
      × (after.access_token ≡ s.access_token)
      × (after.location ≡ s.location)
unfolding request travel_planner.Api.Paths.version_header trip_path
request-own_account net method rest s =
    let path = codes "/auth/" ++ rest in
    let sent_now = does (fetch_of method path s) s in
    elim (Option-cases (net.respond sent_now.log)) [
      | inl lost ↦ rw (lost, request) (refl, refl, refl)
      | inr (res, here) ↦
          let own = starts_with-append (codes "/auth/") rest in
          rw (request-answered net method path s res here (ground (arith, own)))
            (answered-Untouched path res sent_now refl)
    ]
