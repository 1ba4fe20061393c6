-- ===== src/Polling/Notice.antt =====
-- What a tab notices of other members' edits.
use travel_planner.Base.{
  ℕ, suc, ◌==◌, ◌<◌, ◌≡◌, refl, sym, ap, ◌∙◌, All, Bool, true, false, not, ◌||◌, Option, none, some,
  List, [], ◌∷◌, any, Code, code_eq_self, ◌otherwise◌, if◌then◌else◌, ◌⊎◌, inl, inr, arith,
}
use travel_planner.Api.{Method}
use travel_planner.Api.Paths.{trip_path, version_header, note_versions, get_version}
use travel_planner.Api.Paths.Laws.{get_version-set_version}
use travel_planner.Polling.{Changes, poll_begun, poll_settled}
use travel_planner.Polling.Tab.{
  Backend, Tab, Event, saved, edited_elsewhere, poll_starts, poll_ends, is_other, is_waiting,
  take_poll, answered_save, save, begin_poll, end_poll, step, run, poll, All-take_poll,
}

or_assoc : (a b c : Bool) → a || (b || c) ≡ (a || b) || c
or_assoc true b c = refl
or_assoc false b c = refl

module _ {A : Type 0} (backend : Backend A) (path : Code) (method : Method) (id : Code) (base : ℕ)
    (sub : Option Code) (is_path : trip_path path ≡ some (id, sub))
    (is_edit : (versions : List (Code × ℕ))
      → version_header path method versions ≡ get_version id versions)
    (takes : (v : ℕ) → backend.saves (some v) v ≡ some (suc v))
    (refuses : (w v : ℕ) → w < v → backend.saves (some w) v ≡ none)
    (compares : (since v : ℕ) → (backend.compare since v).changed ≡ not (since == v)) where
  -- Nobody else has edited: the tab knows the server's version, and it shows nothing and its polls
  -- ask for what is new since that version, unless an own edit has overtaken a poll. Or others have
  -- edited, and the tab is behind.
  InTouch : Bool → Tab A → Type 0
  InTouch others t =
      (v : ℕ) × (get_version id t.versions ≡ some v)
      × (((others ≡ false)
            × (v ≡ t.server)
            × ((t.overtaken ≡ true) ⊎ ((t.shown ≡ none) × All (λ since. since ≡ t.server) t.polls)))
          ⊎ ((others ≡ true) × (v < t.server)))

  noted :
      (v : ℕ) (versions : List (Code × ℕ))
      → get_version id (note_versions path (some v) none versions) ≡ some v
  unfolding note_versions
  noted v versions =
      rw (is_path, note_versions)
        (get_version-set_version id id v versions ∙ rw (code_eq_self id) refl)

  save-fresh :
      (t : Tab A)
      → get_version id t.versions ≡ some t.server
      → save backend path method id base t ≡ record t {
        server = suc t.server;
        versions = note_versions path (some (suc t.server)) none t.versions;
        overtaken = t.overtaken || is_waiting t.polls;
      }
  save-fresh t known =
      ap (λ o. answered_save backend path method id base o t)
        (ap (λ m. backend.saves m t.server) (is_edit t.versions ∙ known) ∙ takes t.server)

  save-stale :
      (t : Tab A) (v : ℕ)
      → get_version id t.versions ≡ some v
      → v < t.server
      → save backend path method id base t ≡ record t { refused = suc t.refused }
  save-stale t v known behind =
      ap (λ o. answered_save backend path method id base o t)
        (ap (λ m. backend.saves m t.server) (is_edit t.versions ∙ known)
          ∙ refuses v t.server behind)

  settled_lem :
      (since v : ℕ) (shown : Option (Changes A))
      → poll_settled false (some (backend.compare since v)) shown
        ≡ (if since == v then shown else some (backend.compare since v))
  unfolding poll_settled
  settled_lem since v shown = ground (arith, compares since v)

  poll_shown :
      (t : Tab A) (v : ℕ)
      → get_version id t.versions ≡ some v
      → (poll backend path method id base t).shown
        ≡ (if v == t.server then t.shown else some (backend.compare v t.server))
  unfolding poll_begun
  poll_shown t v known =
      ap
        (λ (o : Option ℕ).
          poll_settled false (some (backend.compare (o otherwise base) t.server)) t.shown)
        known
      ∙ settled_lem v t.server t.shown

  same_others : (others : Bool) (t : Tab A) → InTouch others t → InTouch (others || false) t
  same_others true t h = h
  same_others false t h = h

  waiting_lem :
      (overtaken : Bool) (polls : List ℕ) (shown : Option (Changes A)) (server : ℕ)
      → (overtaken ≡ true) ⊎ ((shown ≡ none) × All (λ since. since ≡ server) polls)
      → (overtaken || is_waiting polls ≡ true)
        ⊎ ((shown ≡ none) × All (λ since. since ≡ suc server) polls)
  waiting_lem overtaken polls shown server (inl late) = inl (ground (arith, late))
  waiting_lem overtaken [] shown server (inr (nothing, all)) = inr (nothing, tt)
  waiting_lem overtaken (p ∷ ps) shown server (inr (nothing, all)) = inl (ground arith)

  begin-InTouch :
      (polled : Option ℕ) (others : Bool) (t : Tab A) (v : ℕ)
      → get_version id t.versions ≡ some v
      → (polled ≡ none) ⊎ (polled ≡ some v)
      → InTouch others t
      → InTouch others (begin_poll backend path method id base polled t)
  unfolding InTouch
  begin-InTouch none others t v known which h = h
  begin-InTouch (some since) others t v known (inl not_sent) h = absurd (cc)
  begin-InTouch (some since) others t v known (inr sent) (w, known', inr behind) =
      (w, known', inr behind)
  begin-InTouch (some since) others t v known (inr sent)
        (w, known', inl (nobody, current, inl late)) =
      (w, known', inl (nobody, current, inl late))
  begin-InTouch (some since) others t v known (inr sent)
        (w, known', inl (nobody, current, inr (nothing, all))) =
      let both : some v ≡ some w = sym known ∙ known' in
      let same : since ≡ t.server = cc in
      (w, known', inl (nobody, current, inr (nothing, (same, all))))

  end-InTouch :
      (fails : Bool) (taken : Option (ℕ × List ℕ)) (others : Bool) (t : Tab A)
      → ((since : ℕ) (rest : List ℕ)
          → All (λ since. since ≡ t.server) t.polls
          → taken ≡ some (since, rest)
          → (since ≡ t.server) × All (λ since. since ≡ t.server) rest)
      → InTouch others t
      → InTouch others (end_poll backend path method id base fails taken t)
  unfolding InTouch poll_settled
  end-InTouch fails none others t parts h = h
  end-InTouch true (some (since, rest)) others t parts (v, known, inr behind) =
      (v, known, inr behind)
  end-InTouch false (some (since, rest)) others t parts (v, known, inr behind) =
      (v, known, inr behind)
  end-InTouch true (some (since, rest)) others t parts (v, known, inl (nobody, current, inl late)) =
      (v, known, inl (nobody, current, inl late))
  end-InTouch false (some (since, rest)) others t parts
        (v, known, inl (nobody, current, inl late)) =
      (v, known, inl (nobody, current, inl late))
  end-InTouch true (some (since, rest)) others t parts
        (v, known, inl (nobody, current, inr (nothing, all))) =
      (v, known, inl (nobody, current, inr (nothing, (parts since rest all refl).1)))
  end-InTouch false (some (since, rest)) others t parts
        (v, known, inl (nobody, current, inr (nothing, all))) =
      let (same, left) = parts since rest all refl in
      (
        v,
        known,
        inl (
          nobody,
          current,
          inr (settled_lem since t.server t.shown ∙ ground (arith, same, nothing), left),
        ),
      )

  sent_lem :
      (visible online : Bool) (versions : List (Code × ℕ)) (v : ℕ)
      → get_version id versions ≡ some v
      → (poll_begun visible online id base versions ≡ none)
        ⊎ (poll_begun visible online id base versions ≡ some v)
  unfolding poll_begun
  sent_lem true true versions v known = inr (ap (λ (o : Option ℕ). some (o otherwise base)) known)
  sent_lem true false versions v known = inl refl
  sent_lem false online versions v known = inl refl

  step-InTouch :
      (e : Event) (others : Bool) (t : Tab A)
      → InTouch others t
      → InTouch (others || is_other e) (step backend path method id base e t)
  unfolding InTouch
  step-InTouch saved others t (v, known, inl (nobody, current, polls)) =
      rw (save-fresh t (rw current at known)) (
        suc t.server,
        noted (suc t.server) t.versions,
        inl (ground (arith, nobody), refl, waiting_lem t.overtaken t.polls t.shown t.server polls),
      )
  step-InTouch saved others t (v, known, inr (somebody, behind)) =
      rw (save-stale t v known behind) (v, known, inr (ground (arith, somebody), behind))
  step-InTouch edited_elsewhere others t (v, known, inl (nobody, current, polls)) =
      (v, known, inr (ground arith, omega (arith, current)))
  step-InTouch edited_elsewhere others t (v, known, inr (somebody, behind)) =
      (v, known, inr (ground arith, omega (arith, behind)))
  step-InTouch (poll_starts visible online) others t h =
      begin-InTouch (poll_begun visible online id base t.versions) (others || false) t h.0 h.1
        (sent_lem visible online t.versions h.0 h.1) (same_others others t h)
  step-InTouch (poll_ends nth fails) others t h =
      end-InTouch fails (take_poll nth t.polls) (others || false) t
        (All-take_poll (λ since. since ≡ t.server) nth t.polls) (same_others others t h)

  run-InTouch :
      (es : List Event) (others : Bool) (t : Tab A)
      → InTouch others t
      → InTouch (others || any is_other es) (run backend path method id base es t)
  run-InTouch [] others t h = same_others others t h
  run-InTouch (e ∷ es) others t h = rw (or_assoc others (is_other e) (any is_other es)) (
      run-InTouch es (others || is_other e) (step backend path method id base e t)
        (step-InTouch e others t h))

  notices :
      (others : Bool) (u : Tab A)
      → InTouch others u
      → ((others ≡ false)
          × ((save backend path method id base u).server ≡ suc u.server)
          × ((u.overtaken ≡ true)
              ⊎ ((u.shown ≡ none) × ((poll backend path method id base u).shown ≡ none))))
        ⊎ ((others ≡ true)
            × (save backend path method id base u ≡ record u { refused = suc u.refused })
            × ((changes : Changes A) × ((poll backend path method id base u).shown ≡ some changes)))
  unfolding InTouch
  notices others u (v, known, inl (nobody, current, inl late)) =
      inl (nobody, rw (save-fresh u (rw current at known)) refl, inl late)
  notices others u (v, known, inl (nobody, current, inr (nothing, all))) = inl (
    nobody,
    rw (save-fresh u (rw current at known)) refl,
    inr (nothing, poll_shown u v known ∙ ground (arith, current, nothing)),
  )
  notices others u (v, known, inr (somebody, behind)) = inr (
    somebody,
    save-stale u v known behind,
    (backend.compare v u.server, poll_shown u v known ∙ ground (arith, behind)),
  )

  -- The tab knows the server's version, shows no changes and has no poll under way; then it edits,
  -- others edit, and polls begin, are answered and fail in any order, where each own edit is
  -- answered before anything else happens. If nobody else has edited the
  -- trip, a further edit of the tab is taken; and unless one of its own edits was taken while a poll
  -- was under way, it shows no changes, also after a further poll. If somebody else has edited, a
  -- further edit is refused, so that it overwrites nothing, and a further poll shows the change.
  pub run-notices :
      (es : List Event) (t : Tab A)
      → get_version id t.versions ≡ some t.server
      → t.shown ≡ none
      → t.polls ≡ []
      → let u = run backend path method id base es t in
        ((any is_other es ≡ false)
          × ((save backend path method id base u).server ≡ suc u.server)
          × ((u.overtaken ≡ true)
              ⊎ ((u.shown ≡ none) × ((poll backend path method id base u).shown ≡ none))))
        ⊎ ((any is_other es ≡ true)
            × (save backend path method id base u ≡ record u { refused = suc u.refused })
            × ((changes : Changes A) × ((poll backend path method id base u).shown ≡ some changes)))
  unfolding InTouch
  run-notices es t known nothing idle =
      notices (any is_other es) (run backend path method id base es t)
        (run-InTouch es false t (t.server, known, inl (refl, refl, inr (nothing, rw idle tt))))
