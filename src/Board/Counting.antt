-- ===== src/Board/Counting.antt =====
-- How often a board shows the stops that pass a test. Boards with the same count at every test
-- show the same stops, each as often.
use travel_planner.Base.{
  ℕ, ◌+◌, ◌≤◌, ◌≡◌, refl, String, Bool, false, none, some, List, [], ◌∷◌, ◌&&◌, arith, find, any,
  tally, sum_by, to_ℕ,
}
use travel_planner.Types.{Itinerary, ItineraryDay, ItineraryWaypoint}
use travel_planner.Board.{is_stop, is_day}

abbrev pub count_days : (ItineraryWaypoint → Bool) → List ItineraryDay → ℕ
count_days p ds = sum_by (λ d. tally p d.waypoints) ds

abbrev pub count_stops : (ItineraryWaypoint → Bool) → Itinerary → ℕ
count_stops p it = count_days p it.days + tally p it.unscheduled_waypoints

-- Every stop is on the board at most once, and every day's id names one day.
pub record IsBoard (it : Itinerary) : Type 0 where
  pub stops_once : (id : String) → count_stops (is_stop id) it ≤ 1
  pub days_once : (id : String) → tally (is_day id) it.days ≤ 1

pub tally-and_le :
    (p q : ItineraryWaypoint → Bool) (ws : List ItineraryWaypoint)
    → tally (λ w. q w && p w) ws ≤ tally q ws
tally-and_le p q [] = omega arith
tally-and_le p q (w ∷ ws) = ground (arith, tally-and_le p q ws)

pub tally-any :
    (p q : ItineraryWaypoint → Bool) (ws : List ItineraryWaypoint)
    → any q ws ≡ false
    → tally q ws ≡ 0
tally-any p q [] h = refl
tally-any p q (w ∷ ws) h = ground (arith, tally-any p q ws)

pub tally-find-none :
    (q : ItineraryWaypoint → Bool) (ws : List ItineraryWaypoint) → find q ws ≡ none → tally q ws ≡ 0
tally-find-none q [] h = refl
tally-find-none q (w ∷ ws) h = ground (arith, tally-find-none q ws)

-- The one element that passes `q` is the one that a search finds.
pub tally-find-some :
    (p q : ItineraryWaypoint → Bool) (ws : List ItineraryWaypoint) (w : ItineraryWaypoint)
    → find q ws ≡ some w
    → tally q ws ≤ 1
    → (tally (λ w. q w && p w) ws ≡ to_ℕ (p w)) × (tally q ws ≡ 1)
tally-find-some p q [] w h once = ground arith
tally-find-some p q (x ∷ xs) w h once =
    ground (arith, tally-find-some p q xs w, tally-and_le p q xs)
