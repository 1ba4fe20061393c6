-- ===== src/Board/Places.antt =====
-- The board as a map from stops to containers, which is what a drag promises to change.
use travel_planner.Base.{
  ℕ, ◌≡◌, refl, sym, ap, ◌∙◌, String, Bool, true, false, ◌||◌, Option, none, some, List, [], ◌∷◌,
  ◌++◌, map, str_eq, eq_iff, arith, find, find-map, any, Bool-cases, inl, inr, ◌⊎◌, if◌then◌else◌,
}
use travel_planner.Types.{Itinerary, ItineraryDay, ItineraryWaypoint}
use travel_planner.Board.{
  unscheduled, is_stop, is_day, holds, without, take_out, put_in, placed, find_waypoint_container,
  handle_drag_over,
}
use mathlib.Core.Option
use travel_planner.Board.Drop.{
  id-take_out, holds-take_out, any-append_last, find_sound, find-moved, move_across_found, over_day,
  handle_drag_over-moves,
}

-- The abstract board: the container of each stop, if it has one.
abbrev pub Places : Type 0
Places = String → Option String

abbrev pub places : Itinerary → Places
places it id = find_waypoint_container (some it) id

-- What a drag promises: the stop is in the new container, and all others are where they were.
abbrev pub relocate : String → String → Places → Places
relocate active to before id = if str_eq id active then some to else before id

find_nowhere :
    (q : ItineraryDay → Bool) (f : ItineraryDay → ItineraryDay) (ds : List ItineraryDay)
    → ((d : ItineraryDay) → q (f d) ≡ false)
    → find q (map f ds) ≡ none
find_nowhere q f [] none_does = refl
find_nowhere q f (d ∷ ds) none_does = rw (none_does d) (find_nowhere q f ds none_does)

-- What `find_waypoint_container` makes of its two searches.
abbrev place_of : Option ItineraryDay → Bool → Option String
place_of o in_column = elim o [
  | some day ↦ some day.id
  | none ↦ if in_column then some unscheduled else none
]

places_lem :
    (it : Itinerary) (id : String)
    → places it id ≡ place_of (find (holds id) it.days) (any (is_stop id) it.unscheduled_waypoints)
unfolding find_waypoint_container
places_lem it id = refl

place_of-map :
    (f : ItineraryDay → ItineraryDay) (o : Option ItineraryDay) (b : Bool)
    → ((d : ItineraryDay) → (f d).id ≡ d.id)
    → place_of (Option.map f o) b ≡ place_of o b
place_of-map f none b same = refl
place_of-map f (some d) b same = ap some (same d)

id-put_in : (to : String) (w : ItineraryWaypoint) (d : ItineraryDay) → (put_in to w d).id ≡ d.id
unfolding put_in
id-put_in to w d = ground arith

module _ (id active to : String) (w : ItineraryWaypoint) (other : str_eq id active ≡ false)
    (is_active : is_stop active w ≡ true) where
  not_other : (v : ItineraryWaypoint) → is_stop active v ≡ true → is_stop id v ≡ false
  not_other v h = ground (arith, eq_iff v.id active, eq_iff v.id id, eq_iff id active)

  any-without :
      (ws : List ItineraryWaypoint) → any (is_stop id) (without active ws) ≡ any (is_stop id) ws
  any-without [] = refl
  any-without (v ∷ ws) = elim (Bool-cases (is_stop active v)) [
    | inl here ↦ rw (here, not_other v here) (any-without ws)
    | inr there ↦ rw there (ap (λ b. is_stop id v || b) (any-without ws))
  ]

  any-append_moved :
      (ws : List ItineraryWaypoint) → any (is_stop id) (ws ++ w ∷ []) ≡ any (is_stop id) ws
  any-append_moved [] = rw (not_other w is_active) refl
  any-append_moved (v ∷ ws) = ap (λ b. is_stop id v || b) (any-append_moved ws)

  holds-take_out_other : (d : ItineraryDay) → holds id (take_out active d) ≡ holds id d
  unfolding take_out
  holds-take_out_other d = elim (Bool-cases (holds active d)) [
    | inl here ↦ rw here (any-without d.waypoints)
    | inr absent ↦ rw absent refl
  ]

  holds-put_in_other : (d : ItineraryDay) → holds id (put_in to w d) ≡ holds id d
  unfolding put_in
  holds-put_in_other d = elim (Bool-cases (is_day to d)) [
    | inl here ↦ rw here (any-append_moved d.waypoints)
    | inr there ↦ rw there refl
  ]

  -- The days of a stop that is not dragged.
  place-days :
      (b : Bool) (ds : List ItineraryDay)
      → place_of (find (holds id) (map (take_out active) ds)) b ≡ place_of (find (holds id) ds) b
  place-days b ds =
      rw (find-map (holds id) (holds id) (take_out active) ds holds-take_out_other)
        (place_of-map (take_out active) (find (holds id) ds) b (id-take_out active))

  place-put_in :
      (b : Bool) (ds : List ItineraryDay)
      → place_of (find (holds id) (map (put_in to w) ds)) b ≡ place_of (find (holds id) ds) b
  place-put_in b ds =
      rw (find-map (holds id) (holds id) (put_in to w) ds holds-put_in_other)
        (place_of-map (put_in to w) (find (holds id) ds) b (id-put_in to w))

  places-placed_other :
      (it : Itinerary) (rest : List ItineraryWaypoint)
      → any (is_stop id) rest ≡ any (is_stop id) it.unscheduled_waypoints
      → places (placed to w (map (take_out active) it.days) rest it) id ≡ places it id
  places-placed_other it rest same = elim (Bool-cases (str_eq to unscheduled)) [
    | inl column ↦ rw column (
        places_lem
          (record it {
            days = map (take_out active) it.days;
            unscheduled_waypoints = rest ++ w ∷ [];
          })
          id
        ∙ ap (place_of (find (holds id) (map (take_out active) it.days)))
            (any-append_moved rest ∙ same)
        ∙ place-days (any (is_stop id) it.unscheduled_waypoints) it.days
        ∙ sym (places_lem it id))
    | inr day ↦ rw day (
        places_lem
          (record it {
            days = map (put_in to w) (map (take_out active) it.days);
            unscheduled_waypoints = rest;
          })
          id
        ∙ ap (place_of (find (holds id) (map (put_in to w) (map (take_out active) it.days)))) same
        ∙ place-put_in (any (is_stop id) it.unscheduled_waypoints) (map (take_out active) it.days)
        ∙ place-days (any (is_stop id) it.unscheduled_waypoints) it.days
        ∙ sym (places_lem it id))
  ]

module _ (active to : String) (it : Itinerary) (w : ItineraryWaypoint)
    (rest : List ItineraryWaypoint) (is_active : is_stop active w ≡ true) where
  places-placed_column :
      str_eq to unscheduled ≡ true
      → places (placed to w (map (take_out active) it.days) rest it) active ≡ some to
  places-placed_column column = rw column (
      places_lem
        (record it { days = map (take_out active) it.days; unscheduled_waypoints = rest ++ w ∷ [] })
        active
      ∙ ap (λ o. place_of o (any (is_stop active) (rest ++ w ∷ [])))
          (find_nowhere (holds active) (take_out active) it.days (holds-take_out active))
      ∙ rw (any-append_last (is_stop active) rest w is_active)
          (ap some (sym ((eq_iff to unscheduled).0 column))))

  places-placed_day :
      (t : ItineraryDay)
      → str_eq to unscheduled ≡ false
      → find (is_day to) it.days ≡ some t
      → holds active t ≡ false
      → places (placed to w (map (take_out active) it.days) rest it) active ≡ some to
  places-placed_day t day target absent = rw day (
      places_lem
        (record it {
          days = map (put_in to w) (map (take_out active) it.days);
          unscheduled_waypoints = rest;
        })
        active
      ∙ rw (find-moved active to w is_active it.days t target absent)
          (ap some ((eq_iff t.id to).0 (find_sound (is_day to) it.days t target))))

module _ (array_move : List ItineraryWaypoint → ℕ → ℕ → List ItineraryWaypoint) (it : Itinerary)
    (active from to : String) (on_board : find_waypoint_container (some it) active ≡ some from)
    (leaves : str_eq from to ≡ false) (not_self : str_eq active to ≡ false)
    (there : (str_eq to unscheduled ≡ true)
      ⊎ ((str_eq to unscheduled ≡ false)
          × ((t : ItineraryDay) × (find (is_day to) it.days ≡ some t)
              × (holds active t ≡ false)))) where
  -- The drag implements its specification: seen as a map from stops to containers, the board after
  -- a drag of a stop over another container, the unscheduled column or a day that does not hold the
  -- stop, is the board before it with that stop relocated.
  pub places-handle_drag_over :
      (id : String)
      → places (handle_drag_over array_move (some it) (over_day active to) it) id
        ≡ relocate active to (places it) id
  places-handle_drag_over id =
      let (w, rest, is_active, moved, kept) = move_across_found active it from to on_board in
      ap (λ b. places b id)
        (handle_drag_over-moves array_move it active from to on_board leaves not_self ∙ moved)
      ∙ placed_lem w rest is_active kept
    where
      placed_lem :
          (w : ItineraryWaypoint) (rest : List ItineraryWaypoint)
          → is_stop active w ≡ true
          → (rest ≡ it.unscheduled_waypoints) ⊎ (rest ≡ without active it.unscheduled_waypoints)
          → places (placed to w (map (take_out active) it.days) rest it) id
            ≡ relocate active to (places it) id
      placed_lem w rest is_active kept = elim (Bool-cases (str_eq id active)) [
        | inl self ↦
            let same : id ≡ active = (eq_iff id active).0 self in
            rw (self, same)
              (elim there [
                | inl column ↦ places-placed_column active to it w rest is_active column
                | inr (day, (t, target, absent)) ↦
                    places-placed_day active to it w rest is_active t day target absent
              ])
        | inr other ↦ rw other (
            places-placed_other id active to w other is_active it rest (elim kept [
              | inl all_kept ↦ ap (any (is_stop id)) all_kept
              | inr taken_off ↦
                  ap (any (is_stop id)) taken_off
                  ∙ any-without id active to w other is_active it.unscheduled_waypoints
            ]))
      ]
