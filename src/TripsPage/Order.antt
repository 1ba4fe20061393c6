-- ===== src/TripsPage/Order.antt =====
-- Fetches whose answers arrive in their order.
use travel_planner.Base.{◌≡◌, String, Bool, true, false, Option, is_some, List, [], ◌∷◌, ◌++◌, ◌⊎◌}
use travel_planner.Reply.{Reply, answered, failed}
use travel_planner.TripsPage.{TripListItem, Filters, TripsPage, fetch_settled, choose_filters}

-- The clicks on filters, and what becomes of the oldest fetch under way: the server answers with
-- the list, or the fetch fails.
pub data Event : Type 0 where
  chosen : Filters → Event
  answer_came : Event
  fetch_failed : Option String → Event

abbrev pub is_failure : Event → Bool
is_failure (fetch_failed e) = true
is_failure _ = false

-- The page, and what its fetches under way ask for, the oldest first.
abbrev pub Fetching : Type 0
Fetching = TripsPage × List Filters

module _ (list : Filters → List TripListItem) where
  abbrev pub take_reply :
      (Filters → Reply (List TripListItem)) → List Filters → TripsPage → Fetching
  take_reply reply [] p = (p, [])
  take_reply reply (f ∷ fs) p = (fetch_settled (reply f) p, fs)

  abbrev pub step : Event → Fetching → Fetching
  step (chosen filters) (p, asked) = let (f, q) = choose_filters filters p in (q, asked ++ f ∷ [])
  step answer_came (p, asked) = take_reply (λ f. answered (list f)) asked p
  step (fetch_failed e) (p, asked) = take_reply (λ f. failed e) asked p

  abbrev pub run : List Event → Fetching → Fetching
  run [] s = s
  run (e ∷ es) s = run es (step e s)

  -- The page does not load any more, and it shows the list of its filters or an error.
  abbrev pub IsSettled : TripsPage → Type 0
  IsSettled p = (p.loading ≡ false) × ((p.trips ≡ list p.filters) ⊎ (is_some p.error ≡ true))

  -- The last fetch asks for the filters of the page, or none is under way and the page is settled.
  IsCurrent : TripsPage → List Filters → Type 0
  IsCurrent p [] = IsSettled p
  IsCurrent p (f ∷ []) = f ≡ p.filters
  IsCurrent p (f ∷ g ∷ fs) = IsCurrent p (g ∷ fs)

  abbrev IsServed : Fetching → Type 0
  IsServed (p, asked) = IsCurrent p asked
