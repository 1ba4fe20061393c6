-- ===== src/Board/Moves.antt =====
-- The counts of a board when a stop is taken out of one container and put into another.
use travel_planner.Base.{
  ℕ, ◌+◌, ◌*◌, ◌≤◌, ◌≡◌, refl, String, Bool, true, Option, none, some, List, [], ◌∷◌, map, ◌&&◌,
  str_eq, arith, find, tally, to_ℕ, tally-keep, tally-append, Bool-cases, Option-cases, inl, inr,
  ◌⊎◌, sym, ap, ◌∙◌, ◌≢◌,
}
use travel_planner.Types.{Itinerary, ItineraryDay, ItineraryWaypoint}
use travel_planner.Board.{
  unscheduled, is_stop, is_day, holds, without, taken, take_out, put_in, placed, move_across,
}
use travel_planner.Board.Counting.{
  count_days, count_stops, IsBoard, tally-and_le, tally-any, tally-find-none, tally-find-some,
}

module _ (p : ItineraryWaypoint → Bool) (id : String) where
  tally-take_out :
      (d : ItineraryDay)
      → tally p (take_out id d).waypoints + tally (λ w. is_stop id w && p w) d.waypoints
        ≡ tally p d.waypoints
  unfolding take_out
  tally-take_out d = elim (Bool-cases (holds id d)) [
    | inl here ↦ rw here (tally-keep p (is_stop id) d.waypoints)
    | inr absent ↦ rw absent (
        omega (
          arith,
          tally-any p (is_stop id) d.waypoints absent,
          tally-and_le p (is_stop id) d.waypoints,
        ))
  ]

  count_days-take_out :
      (ds : List ItineraryDay)
      → count_days p (map (take_out id) ds) + count_days (λ w. is_stop id w && p w) ds
        ≡ count_days p ds
  count_days-take_out [] = omega arith
  count_days-take_out (d ∷ ds) = omega (arith, tally-take_out d, count_days-take_out ds)

  count_days-and_le :
      (ds : List ItineraryDay)
      → count_days (λ w. is_stop id w && p w) ds ≤ count_days (is_stop id) ds
  count_days-and_le [] = omega arith
  count_days-and_le (d ∷ ds) =
      omega (arith, tally-and_le p (is_stop id) d.waypoints, count_days-and_le ds)

  -- With nothing more to find the pass keeps what it had.
  taken_absent :
      (ds : List ItineraryDay) (m : Option ItineraryWaypoint)
      → count_days (is_stop id) ds ≡ 0
      → taken id ds m ≡ m
  unfolding taken
  taken_absent [] m h = refl
  taken_absent (d ∷ ds) m h = elim (Option-cases (find (is_stop id) d.waypoints)) [
    | inl missed ↦ rw missed (taken_absent ds m (omega arith))
    | inr (w, found) ↦
        absurd (omega (arith, (tally-find-some p (is_stop id) d.waypoints w found (omega arith)).1))
  ]

  -- The stop that the pass over the days finds is the only one with its id.
  taken-some :
      (ds : List ItineraryDay) (w : ItineraryWaypoint)
      → taken id ds none ≡ some w
      → count_days (is_stop id) ds ≤ 1
      → count_days (λ v. is_stop id v && p v) ds ≡ to_ℕ (p w)
  unfolding taken
  taken-some [] w e once = absurd (cc)
  taken-some (d ∷ ds) w e once = elim (Option-cases (find (is_stop id) d.waypoints)) [
    | inl missed ↦ omega (
      arith,
      taken-some ds w (rw missed at e) (omega arith),
      tally-find-none (is_stop id) d.waypoints missed,
      tally-and_le p (is_stop id) d.waypoints,
    )
    | inr (v, found) ↦
        let (here, one) = tally-find-some p (is_stop id) d.waypoints v found (omega arith) in
        let rest : count_days (is_stop id) ds ≡ 0 = omega arith in
        let both : some v ≡ some w = sym (taken_absent ds (some v) rest) ∙ rw found at e in
        let same : v ≡ w = cc in
        omega (arith, here, ap (λ x. to_ℕ (p x)) same, count_days-and_le ds)
  ]

  taken-ne-none : (ds : List ItineraryDay) (v : ItineraryWaypoint) → taken id ds (some v) ≢ none
  unfolding taken
  taken-ne-none [] v e = cc
  taken-ne-none (d ∷ ds) v e = elim (Option-cases (find (is_stop id) d.waypoints)) [
    | inl missed ↦ taken-ne-none ds v (rw missed at e)
    | inr (x, found) ↦ taken-ne-none ds x (rw found at e)
  ]

  pub taken-none :
      (ds : List ItineraryDay) → taken id ds none ≡ none → count_days (is_stop id) ds ≡ 0
  unfolding taken
  taken-none [] e = refl
  taken-none (d ∷ ds) e = elim (Option-cases (find (is_stop id) d.waypoints)) [
    | inl missed ↦
        omega
          (arith, tally-find-none (is_stop id) d.waypoints missed, taken-none ds (rw missed at e))
    | inr (x, found) ↦ absurd (taken-ne-none ds x (rw found at e))
  ]

pub days_once-take_out :
    (id to : String) (ds : List ItineraryDay)
    → tally (is_day to) (map (take_out id) ds) ≡ tally (is_day to) ds
unfolding take_out
days_once-take_out id to [] = refl
days_once-take_out id to (d ∷ ds) = ground (arith, days_once-take_out id to ds)

count_days-put_in :
    (p : ItineraryWaypoint → Bool) (to : String) (w : ItineraryWaypoint) (ds : List ItineraryDay)
    → count_days p (map (put_in to w) ds) ≡ count_days p ds + tally (is_day to) ds * to_ℕ (p w)
unfolding put_in
count_days-put_in p to w [] = omega arith
count_days-put_in p to w (d ∷ ds) = elim (Bool-cases (is_day to d)) [
  | inl here ↦
      rw here (omega (arith, count_days-put_in p to w ds, tally-append p d.waypoints (w ∷ [])))
  | inr other ↦ rw other (omega (arith, count_days-put_in p to w ds))
]

-- A container that the board shows: the unscheduled column or one of the days.
abbrev pub IsContainer : String → Itinerary → Type 0
IsContainer to it = (str_eq to unscheduled ≡ true) ⊎ (1 ≤ tally (is_day to) it.days)

module _ (p : ItineraryWaypoint → Bool) (to : String) (w : ItineraryWaypoint)
    (days : List ItineraryDay) (rest : List ItineraryWaypoint) (it : Itinerary) where
  count_stops-placed :
      (str_eq to unscheduled ≡ true) ⊎ (tally (is_day to) days ≡ 1)
      → count_stops p (placed to w days rest it) ≡ count_days p days + tally p rest + to_ℕ (p w)
  count_stops-placed there = elim (Bool-cases (str_eq to unscheduled)) [
    | inl column ↦ rw column (omega (arith, tally-append p rest (w ∷ [])))
    | inr day ↦
        let one : tally (is_day to) days ≡ 1 = ground arith in
        rw day (omega (arith, count_days-put_in p to w days, ap (λ (n : ℕ). n * to_ℕ (p w)) one))
  ]

module _ (p : ItineraryWaypoint → Bool) (id to : String) (it : Itinerary) (board : IsBoard it)
    (there : IsContainer to it) where
  there_after : (str_eq to unscheduled ≡ true) ⊎ (tally (is_day to) (map (take_out id) it.days) ≡ 1)
  there_after = elim there [
    | inl column ↦ inl column
    | inr day ↦ inr (omega (arith, days_once-take_out id to it.days, board.days_once to))
  ]

  pub count_stops-move_across : count_stops p (move_across id to it) ≡ count_stops p it
  unfolding move_across
  count_stops-move_across = elim (Option-cases (taken id it.days none)) [
    | inr (w, found) ↦
        rw (found, move_across)
          (omega (
            arith,
            count_stops-placed p to w (map (take_out id) it.days) it.unscheduled_waypoints it
                there_after,
            count_days-take_out p id it.days,
            taken-some p id it.days w found (omega (arith, board.stops_once id)),
          ))
    | inl missed ↦ elim (Option-cases (find (is_stop id) it.unscheduled_waypoints)) [
      | inl nowhere ↦ rw (missed, nowhere, move_across) refl
      | inr (w, found) ↦
          rw (missed, found, move_across)
            (omega (
              arith,
              count_stops-placed p to w (map (take_out id) it.days)
                  (without id it.unscheduled_waypoints) it there_after,
              count_days-take_out p id it.days,
              count_days-and_le p id it.days,
              taken-none p id it.days missed,
              tally-keep p (is_stop id) it.unscheduled_waypoints,
              (tally-find-some p (is_stop id) it.unscheduled_waypoints w found
                  (omega (arith, board.stops_once id))).0,
            ))
    ]
  ]
