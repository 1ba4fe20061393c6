-- ===== src/Polling/Tab.antt =====
-- A tab and the other members of its trip: the versions of the API client, the edits of the tab
-- and the poll of useTripChanges.ts together. A poll begins in one event and is served and answered,
-- or fails, in a later one, with others between them; an edit is served and answered in one event.
use travel_planner.Base.{
  ℕ, zero, suc, ◌≡◌, All, Option-cases, Bool, true, false, ◌||◌, Option, none, some, List, [], ◌∷◌,
  Code, inl, inr, arith,
}
use travel_planner.Api.{Method}
use travel_planner.Api.Paths.{version_header, note_versions}
use travel_planner.Polling.{Changes, poll_begun, poll_settled}

-- What the server answers to an edit, if it takes it, and to a poll.
pub record Backend (A : Type 0) : Type 0 where
  pub saves : (if_match : Option ℕ) → (version : ℕ) → Option ℕ
  pub compare : (since version : ℕ) → Changes A

-- `polls` are the versions since which the polls under way ask for changes, the latest first. An own
-- edit while a poll is under way has `overtaken` it.
pub record Tab (A : Type 0) : Type 0 where
  pub server : ℕ
  pub versions : List (Code × ℕ)
  pub shown : Option (Changes A)
  pub refused : ℕ
  pub polls : List ℕ
  pub overtaken : Bool

pub data Event : Type 0 where
  saved edited_elsewhere : Event
  poll_starts : (visible online : Bool) → Event
  -- What becomes of one of the polls under way, wherever it stands.
  poll_ends : (nth : ℕ) → (fails : Bool) → Event

abbrev pub is_other : Event → Bool
is_other edited_elsewhere = true
is_other _ = false

abbrev pub is_waiting : List ℕ → Bool
is_waiting [] = false
is_waiting (_ ∷ _) = true

-- One poll, and the others.
abbrev pub take_poll : ℕ → List ℕ → Option (ℕ × List ℕ)
take_poll n [] = none
take_poll zero (since ∷ polls) = some (since, polls)
take_poll (suc n) (since ∷ polls) = elim (take_poll n polls) [
  | none ↦ none
  | some (other, rest) ↦ some (other, since ∷ rest)
]

module _ {A : Type 0} (backend : Backend A) (path : Code) (method : Method) (id : Code)
    (base : ℕ) where
  abbrev pub answered_save : Option ℕ → Tab A → Tab A
  answered_save none t = record t { refused = suc t.refused }
  answered_save (some v) t = record t {
    server = v;
    versions = note_versions path (some v) none t.versions;
    overtaken = t.overtaken || is_waiting t.polls;
  }

  -- An edit of the tab at `path`, with its answer.
  abbrev pub save : Tab A → Tab A
  save t = answered_save (backend.saves (version_header path method t.versions) t.server) t

  abbrev pub begin_poll : Option ℕ → Tab A → Tab A
  begin_poll none t = t
  begin_poll (some since) t = record t { polls = since ∷ t.polls }

  abbrev pub end_poll : (fails : Bool) → Option (ℕ × List ℕ) → Tab A → Tab A
  end_poll fails none t = t
  end_poll true (some (since, rest)) t = record t {
    shown = poll_settled false none t.shown;
    polls = rest;
  }
  end_poll false (some (since, rest)) t = record t {
    shown = poll_settled false (some (backend.compare since t.server)) t.shown;
    polls = rest;
  }

  abbrev pub step : Event → Tab A → Tab A
  step saved t = save t
  step edited_elsewhere t = record t { server = suc t.server }
  step (poll_starts visible online) t = begin_poll (poll_begun visible online id base t.versions) t
  step (poll_ends nth fails) t = end_poll fails (take_poll nth t.polls) t

  abbrev pub run : List Event → Tab A → Tab A
  run [] t = t
  run (e ∷ es) t = run es (step e t)

  -- A poll from its beginning to its answer.
  abbrev pub poll : Tab A → Tab A
  poll t = step (poll_ends 0 false) (step (poll_starts true true) t)

-- What holds of all polls under way holds of the one that is taken and of the rest.
pub All-take_poll :
    (p : ℕ → Type 0) (n : ℕ) (polls : List ℕ) (since : ℕ) (rest : List ℕ)
    → All p polls
    → take_poll n polls ≡ some (since, rest)
    → p since × All p rest
All-take_poll p n [] since rest h e = absurd (cc)
All-take_poll p zero (q ∷ polls) since rest (here, h) e =
    let same : q ≡ since = cc in
    let others : polls ≡ rest = cc in (rw (← same) here, rw (← others) h)
All-take_poll p (suc n) (q ∷ polls) since rest (here, h) e =
    elim (Option-cases (take_poll n polls)) [
      | inl nothing ↦ absurd (ground (arith, e, nothing))
      | inr ((other, left), found) ↦
          let same : other ≡ since = ground (arith, e, found) in
          let others : q ∷ left ≡ rest = ground (arith, e, found) in
          let (this, those) = All-take_poll p n polls other left h found in
          (rw (← same) this, rw (← others) (here, those))
    ]
