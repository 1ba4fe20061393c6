-- ===== src/Api/Request/Versions.antt =====
-- Optimistic concurrency: what requests do to the remembered versions.
use travel_planner.Base.{
  ℕ, ◌==◌, ◌≡◌, refl, Bool, true, false, ◌&&◌, Option, none, some, ◌∷◌, if◌then◌else◌, Code,
  code_eq, Bool-cases, Option-cases, inl, inr, arith,
}
use travel_planner.Api.{
  Method, Response, Failure, conflict, err, refresh_sent, trip_conflict, Api, Net, is_ok,
}
use travel_planner.Api.Paths.{trip_path, version_header, note_versions, is_read, is_versioned}
use travel_planner.Api.Paths.Laws.{version_header-note_versions}
use travel_planner.Api.Request.Session.{
  first, is_unauthorized, request_unauthorized, request-answered, request_unsent,
}
use travel_planner.Api.Request.{
  does, fetch_of, conflicted, has_code, plain_answer, guarded_answer, answered, request_retry,
  new_token, after_refresh, request, body_text,
}

module _ {P : Type 0} (path : Code) (res : Response P) (s : Api) where
  plain_answer-clean :
      (f : Failure)
      → (plain_answer path res s).0 ≡ err f
      → (plain_answer path res s).1.trip_versions ≡ s.trip_versions
  unfolding plain_answer
  plain_answer-clean f e = ground arith

  guarded_answer-clean :
      (f : Failure)
      → (guarded_answer path res s).0 ≡ err f
      → (guarded_answer path res s).1.trip_versions ≡ s.trip_versions
  unfolding guarded_answer
  guarded_answer-clean f e = ground (arith, plain_answer-clean f)

  answered-clean :
      (f : Failure)
      → (answered path res s).0 ≡ err f
      → (answered path res s).1.trip_versions ≡ s.trip_versions
  unfolding answered
  answered-clean f e = ground (arith, guarded_answer-clean f)

  -- The answer to an edit that a collaborator got in front of.
  abbrev is_conflict : Bool
  is_conflict = res.status == 409 && has_code res.json "version_conflict"

  answered-conflict :
      (id : Code) (sub : Option Code)
      → is_conflict ≡ true
      → trip_path path ≡ some (id, sub)
      → answered path res s ≡ (err (conflict (body_text res.json)), does (trip_conflict id) s)
  unfolding answered
  answered-conflict id sub stale of_trip = rw (stale, answered) (rw (of_trip, conflicted) refl)

  -- A response 2xx with a version in its header.
  answered-notes :
      (v : ℕ)
      → is_ok res.status ≡ true
      → res.trip_version ≡ some v
      → (res.json ≡ none → res.status ≡ 204)
      → (body : Option ℕ) × ((answered path res s).1.trip_versions
          ≡ note_versions path (some v) body s.trip_versions)
  unfolding answered guarded_answer plain_answer
  answered-notes v fine header decoded = elim (Bool-cases (res.status == 204)) [
    | inl empty ↦ (none, ground arith)
    | inr full ↦ elim (Option-cases res.json) [
      | inl no_json ↦ absurd (ground (arith, decoded no_json))
      | inr (j, json) ↦ (j.version, ground arith)
    ]
  ]

module _ {P : Type 0} (net : Net P) (method : Method) (path : Code) where
  retry-clean :
      (s : Api) (f : Failure)
      → (request_retry net method path s).0 ≡ err f
      → (request_retry net method path s).1.trip_versions ≡ s.trip_versions
  unfolding request_retry
  retry-clean s f e = elim (Option-cases (net.respond (does (fetch_of method path s) s).log)) [
    | inl failed ↦ rw (failed, request_retry) refl
    | inr (res, here) ↦
        rw (here, request_retry)
          (answered-clean path res (does (fetch_of method path s) s) f
            (rw (here, request_retry) at e))
  ]

  after_refresh-clean :
      (s : Api) (token : Option Code) (f : Failure)
      → (after_refresh net method path token s).0 ≡ err f
      → (after_refresh net method path token s).1.trip_versions ≡ s.trip_versions
  unfolding after_refresh
  after_refresh-clean s none f e = ground arith
  after_refresh-clean s (some t) f e = retry-clean (record s { access_token = some t }) f e

  -- A request that fails, in whatever way, changes no remembered version: after a refused edit the
  -- tab still sends the version that it last saw.
  pub request-fails_clean :
      (s : Api) (f : Failure)
      → (request net method path s).0 ≡ err f
      → (request net method path s).1.trip_versions ≡ s.trip_versions
  request-fails_clean s f e = elim (Option-cases (net.respond (first net method path s).log)) [
    | inl failed ↦ rw (request_unsent net method path s failed) refl
    | inr (res, here) ↦ elim (Bool-cases (is_unauthorized net method path res)) [
      | inl denied ↦
          let step = request_unauthorized net method path s res here denied in
          rw step (
            after_refresh-clean (does refresh_sent (first net method path s))
              (new_token net (refresh_sent ∷ (first net method path s).log)) f (rw step at e))
      | inr served ↦
          let step = request-answered net method path s res here served in
          rw step (answered-clean path res (first net method path s) f (rw step at e))
    ]
  ]

  module _ (s : Api) (res : Response P) (id : Code) (sub : Option Code)
      (here : net.respond (first net method path s).log ≡ some res)
      (of_trip : trip_path path ≡ some (id, sub)) where
    -- The server says that someone else changed the trip first: the request fails as a conflict,
    -- the page is told which trip it is about, and nothing is sent or changed besides.
    pub request-conflict :
        is_conflict path res s ≡ true
        → ((request net method path s).0 ≡ err (conflict (body_text res.json)))
          × ((request net method path s).1 ≡ does (trip_conflict id) (first net method path s))
    request-conflict stale =
        let served : is_unauthorized net method path res ≡ false = ground arith in
        rw (request-answered net method path s res here served) (
          rw (answered-conflict path res (first net method path s) id sub stale of_trip)
            (refl, refl))

    -- After a successful response with the trip's version in its header, the next edit of a
    -- versioned part of that trip sends that version, and an edit of another trip sends what it
    -- would have sent before. A successful response other than a 204 must have a JSON body.
    pub request-version_header :
        (v : ℕ) (edit_method : Method) (edit : Code) (other part : Code)
        → is_ok res.status ≡ true
        → res.trip_version ≡ some v
        → (res.json ≡ none → res.status ≡ 204)
        → trip_path edit ≡ some (other, some part)
        → is_read edit_method ≡ false
        → is_versioned part ≡ true
        → version_header edit edit_method (request net method path s).1.trip_versions
          ≡ (if code_eq id other then some v else version_header edit edit_method s.trip_versions)
    request-version_header v edit_method edit other part fine header decoded of_edit writes
          versioned =
        let served : is_unauthorized net method path res ≡ false = ground arith in
        let (body, noted) =
          answered-notes path res (first net method path s) v fine header decoded in
        rw (request-answered net method path s res here served) (
          rw noted (
            version_header-note_versions path edit edit_method id other sub part v body
              s.trip_versions of_trip of_edit writes versioned))
