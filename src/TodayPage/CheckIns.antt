-- ===== src/TodayPage/CheckIns.antt =====
-- A check-in is never lost, and a refused one leaves no trace.
use travel_planner.Base.{
  ℕ, ◌≡◌, ◌≢◌, refl, sym, ap, ◌⊎◌, inl, inr, String, Bool, true, false, Option, none, some, List,
  [], ◌∷◌, ◌++◌, map, if◌then◌else◌, All, Bool-cases,
}
use travel_planner.Types.{Itinerary, ItineraryDay, ItineraryWaypoint}
use travel_planner.Board.{is_stop}
use travel_planner.Api.{Failure, network}
use travel_planner.Queue.{CheckInAction, CheckInStore, enqueue_check_in}
use travel_planner.TodayPage.{
  with_marks, change_in, change_day, apply_locally, revert, Page, item, check_in, is_arrived,
  is_skipped,
}

-- The stop that the user taps is the one that the board shows.
abbrev pub IsShownStop : ItineraryWaypoint → ItineraryWaypoint → Type 0
IsShownStop stop w =
    is_stop stop.id w ≡ true → (w.visited_at ≡ stop.visited_at) × (w.skipped ≡ stop.skipped)

abbrev pub IsShown : ItineraryWaypoint → Itinerary → Type 0
IsShown stop it = All (λ d. All (IsShownStop stop) d.waypoints) it.days

change_in-twice :
    (stop : ItineraryWaypoint) (v : Option String) (s : Bool) (ws : List ItineraryWaypoint)
    → All (IsShownStop stop) ws
    → change_in stop.id
        (with_marks stop.visited_at stop.skipped)
        (change_in stop.id (with_marks v s) ws)
      ≡ ws
change_in-twice stop v s [] h = refl
change_in-twice stop v s (w ∷ ws) (here, h) = elim (Bool-cases (is_stop stop.id w)) [
  | inl it ↦
      let (visited, skip) = here it in
      simp (it, sym visited, sym skip, change_in-twice stop v s ws h)
  | inr other ↦ simp (other, change_in-twice stop v s ws h)
]

change_days-twice :
    (stop : ItineraryWaypoint) (v : Option String) (s : Bool) (ds : List ItineraryDay)
    → All (λ d. All (IsShownStop stop) d.waypoints) ds
    → map
        (change_day stop.id (with_marks stop.visited_at stop.skipped))
        (map (change_day stop.id (with_marks v s)) ds)
      ≡ ds
change_days-twice stop v s [] h = refl
change_days-twice stop v s (d ∷ ds) (here, h) =
    simp (change_in-twice stop v s d.waypoints here, change_days-twice stop v s ds h)

revert-apply_locally :
    (stop : ItineraryWaypoint) (action : CheckInAction) (instant : String) (it : Itinerary)
    → IsShown stop it
    → revert stop (apply_locally stop.id action instant (some it)) ≡ some it
revert-apply_locally stop action instant it shown =
    ap (λ ds. some (record it { days = ds }))
      (change_days-twice stop (if is_arrived action then some instant else none) (is_skipped action)
        it.days shown)

-- A check-in that the server refuses, for whatever reason but a missing connection, leaves the
-- board and the queue as they were, if the tapped stop is as the board shows it.
pub check_in-reverts :
    (store : CheckInStore) (trip_id : String) (failure : Failure) (stop : ItineraryWaypoint)
    (action : CheckInAction) (instant : String) (p : Page store trip_id) (it : Itinerary)
    → p.itinerary ≡ some it
    → IsShown stop it
    → failure ≢ network
    → ((check_in store trip_id true (some failure) stop action instant p).itinerary ≡ some it)
      × ((check_in store trip_id true (some failure) stop action instant p).queue ≡ p.queue)
unfolding check_in
check_in-reverts store trip_id network stop action instant p it board shown other =
    absurd (other refl)
check_in-reverts store trip_id _ stop action instant p it board shown other =
    (rw board (revert-apply_locally stop action instant it shown), refl)

-- A check-in without a connection, whether the browser knows that it is offline or the request
-- fails on the network, is shown at once and waits at the end of the queue.
pub check_in-waits :
    (store : CheckInStore) (trip_id : String) (online : Bool) (outcome : Option Failure)
    (stop : ItineraryWaypoint) (action : CheckInAction) (instant : String) (p : Page store trip_id)
    → (online ≡ false) ⊎ (outcome ≡ some network)
    → ((check_in store trip_id online outcome stop action instant p).itinerary
        ≡ apply_locally stop.id action instant p.itinerary)
      × ((n : ℕ) × (store.get_all
              (check_in store trip_id online outcome stop action instant p).queue
            ≡ store.get_all p.queue
              ++ record (item store trip_id stop.id action instant) { id = some n } ∷ []))
unfolding check_in enqueue_check_in
check_in-waits store trip_id false outcome stop action instant p h =
    let (n, added, _) = store.get_all-add (item store trip_id stop.id action instant) p.queue in
    (refl, (n, added))
check_in-waits store trip_id true outcome stop action instant p (inl h) = absurd (cc)
check_in-waits store trip_id true none stop action instant p (inr h) = absurd (cc)
check_in-waits store trip_id true (some network) stop action instant p (inr h) =
    let (n, added, _) = store.get_all-add (item store trip_id stop.id action instant) p.queue in
    (refl, (n, added))
check_in-waits store trip_id true (some _) stop action instant p (inr h) = absurd (cc)
