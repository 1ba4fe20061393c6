-- ===== src/Board/Drop.antt =====
-- Where a stop stands after a drag over a day's column.
use travel_planner.Base.{
  ℕ, ◌≡◌, refl, String, Bool, true, false, Option, none, some, List, [], ◌∷◌, ◌++◌, map, str_eq,
  arith, tally, find, any, Bool-cases, Option-cases, inl, inr, ap, ◌∙◌, ◌⊎◌,
}
use travel_planner.Types.{Itinerary, ItineraryDay, ItineraryWaypoint}
use travel_planner.Board.Counting.{count_days}
use travel_planner.Board.Moves.{taken-none}
use travel_planner.Board.{
  is_stop, is_day, holds, take_out, put_in, without, taken, move_across, find_waypoint_container,
  placed, DragEvent, handle_drag_over, drag_update, target_container,
}

pub any-append_last :
    (q : ItineraryWaypoint → Bool) (ws : List ItineraryWaypoint) (w : ItineraryWaypoint)
    → q w ≡ true
    → any q (ws ++ w ∷ []) ≡ true
any-append_last q [] w h = ground arith
any-append_last q (x ∷ xs) w h = ground (arith, any-append_last q xs w h)

any-without : (id : String) (ws : List ItineraryWaypoint) → any (is_stop id) (without id ws) ≡ false
any-without id [] = refl
any-without id (w ∷ ws) = ground (arith, any-without id ws)

pub holds-take_out : (id : String) (d : ItineraryDay) → holds id (take_out id d) ≡ false
unfolding take_out
holds-take_out id d = elim (Bool-cases (holds id d)) [
  | inl here ↦ rw here (any-without id d.waypoints)
  | inr absent ↦ rw absent absent
]

pub id-take_out : (id : String) (d : ItineraryDay) → (take_out id d).id ≡ d.id
unfolding take_out
id-take_out id d = ground arith

take_out_absent : (id : String) (d : ItineraryDay) → holds id d ≡ false → take_out id d ≡ d
unfolding take_out
take_out_absent id d absent = rw absent refl

put_in_here :
    (to : String) (w : ItineraryWaypoint) (d : ItineraryDay)
    → is_day to d ≡ true
    → put_in to w d ≡ record d { waypoints = d.waypoints ++ w ∷ [] }
unfolding put_in
put_in_here to w d here = rw here refl

put_in_other :
    (to : String) (w : ItineraryWaypoint) (d : ItineraryDay)
    → is_day to d ≡ false
    → put_in to w d ≡ d
unfolding put_in
put_in_other to w d other = rw other refl

find_first :
    (q : ItineraryDay → Bool) (d : ItineraryDay) (ds : List ItineraryDay)
    → q d ≡ true
    → find q (d ∷ ds) ≡ some d
find_first q d ds h = rw h refl

find_later :
    (q : ItineraryDay → Bool) (d : ItineraryDay) (ds : List ItineraryDay)
    → q d ≡ false
    → find q (d ∷ ds) ≡ find q ds
find_later q d ds h = rw h refl

module _ (active to : String) (w : ItineraryWaypoint) (here : is_stop active w ≡ true) where
  put_in-take_out :
      (t : ItineraryDay)
      → is_day to t ≡ true
      → holds active t ≡ false
      → put_in to w (take_out active t) ≡ record t { waypoints = t.waypoints ++ w ∷ [] }
  put_in-take_out t target absent =
      ap (put_in to w) (take_out_absent active t absent) ∙ put_in_here to w t target

  -- After the move the stop is found on the target day, at the end.
  pub find-moved :
      (ds : List ItineraryDay) (t : ItineraryDay)
      → find (is_day to) ds ≡ some t
      → holds active t ≡ false
      → find (holds active) (map (put_in to w) (map (take_out active) ds))
        ≡ some (record t { waypoints = t.waypoints ++ w ∷ [] })
  find-moved [] t e absent = absurd (cc)
  find-moved (d ∷ ds) t e absent = elim (Bool-cases (is_day to d)) [
    | inl target ↦
        let both : some d ≡ some t = rw target at e in
        let same : d ≡ t = cc in
        rw same (
          rw (put_in-take_out t (rw same at target) absent) (
            find_first (holds active) (record t { waypoints = t.waypoints ++ w ∷ [] })
              (map (put_in to w) (map (take_out active) ds))
              (any-append_last (is_stop active) t.waypoints w here)))
    | inr other ↦ rw (put_in_other to w (take_out active d) (rw (id-take_out active d) other)) (
        find_later (holds active) (take_out active d) (map (put_in to w) (map (take_out active) ds))
          (holds-take_out active d)
        ∙ find-moved ds t (rw other at e) absent)
  ]

pub find_sound : {A : Type 0} (q : A → Bool) (xs : List A) (x : A) → find q xs ≡ some x → q x ≡ true
find_sound q [] x e = absurd (cc)
find_sound q (y ∷ ys) x e = elim (Bool-cases (q y)) [
  | inl here ↦ let both : some y ≡ some x = rw here at e in let same : y ≡ x = cc in rw same at here
  | inr later ↦ find_sound q ys x (rw later at e)
]

any_of_find-none :
    (q : ItineraryWaypoint → Bool) (ws : List ItineraryWaypoint)
    → find q ws ≡ none
    → any q ws ≡ false
any_of_find-none q [] e = refl
any_of_find-none q (w ∷ ws) e = ground (arith, any_of_find-none q ws)

any_of_tally :
    (q : ItineraryWaypoint → Bool) (ws : List ItineraryWaypoint) → tally q ws ≡ 0 → any q ws ≡ false
any_of_tally q [] e = refl
any_of_tally q (w ∷ ws) e = ground (arith, any_of_tally q ws)

module _ (active : String) where
  taken_sound :
      (ds : List ItineraryDay) (m : Option ItineraryWaypoint) (w : ItineraryWaypoint)
      → ((v : ItineraryWaypoint) → m ≡ some v → is_stop active v ≡ true)
      → taken active ds m ≡ some w
      → is_stop active w ≡ true
  unfolding taken
  taken_sound [] m w ok e = ok w e
  taken_sound (d ∷ ds) m w ok e = elim (Option-cases (find (is_stop active) d.waypoints)) [
    | inl missed ↦ taken_sound ds m w ok (rw missed at e)
    | inr (x, found) ↦
        taken_sound ds (some x) w
          (λ v same.
            let at : x ≡ v = cc in rw (← at) (find_sound (is_stop active) d.waypoints x found))
          (rw found at e)
  ]

  absent_of_count :
      (ds : List ItineraryDay) → count_days (is_stop active) ds ≡ 0 → find (holds active) ds ≡ none
  absent_of_count [] h = refl
  absent_of_count (d ∷ ds) h =
      rw (any_of_tally (is_stop active) d.waypoints (omega arith))
        (absent_of_count ds (omega arith))

  -- A stop that the board shows is the one that a move takes out, from a day or from the column.
  pub move_across_found :
      (it : Itinerary) (from to : String)
      → find_waypoint_container (some it) active ≡ some from
      → (w : ItineraryWaypoint) × (rest : List ItineraryWaypoint) × (is_stop active w ≡ true)
        × (move_across active to it ≡ placed to w (map (take_out active) it.days) rest it)
        × ((rest ≡ it.unscheduled_waypoints) ⊎ (rest ≡ without active it.unscheduled_waypoints))
  unfolding move_across find_waypoint_container
  move_across_found it from to e = elim (Option-cases (taken active it.days none)) [
    | inr (w, found) ↦ (
      w,
      it.unscheduled_waypoints,
      taken_sound it.days none w (λ v no_v. absurd (cc)) found,
      rw (found, move_across) refl,
      inl refl,
    )
    | inl missed ↦ elim (Option-cases (find (is_stop active) it.unscheduled_waypoints)) [
      | inr (w, found) ↦ (
        w,
        without active it.unscheduled_waypoints,
        find_sound (is_stop active) it.unscheduled_waypoints w found,
        rw (missed, found, move_across) refl,
        inr refl,
      )
      | inl nowhere ↦
          let no_day = absent_of_count it.days (taken-none (λ w. true) active it.days missed) in
          let no_column = any_of_find-none (is_stop active) it.unscheduled_waypoints nowhere in
          let not_there : none ≡ some from = rw (no_day, no_column, find_waypoint_container) at e in
          absurd (cc)
    ]
  ]

-- The event of a drag of a stop over the column of a day.
abbrev pub over_day : String → String → DragEvent
over_day active to = record {
  active = active;
  over = some (record { id = to; is_container = true });
}

pub handle_drag_over-moves :
    (array_move : List ItineraryWaypoint → ℕ → ℕ → List ItineraryWaypoint) (it : Itinerary)
    (active from to : String)
    → find_waypoint_container (some it) active ≡ some from
    → str_eq from to ≡ false
    → str_eq active to ≡ false
    → handle_drag_over array_move (some it) (over_day active to) it ≡ move_across active to it
unfolding handle_drag_over drag_update target_container
handle_drag_over-moves array_move it active from to on_board leaves not_self =
    rw (not_self, handle_drag_over) (rw (on_board, drag_update) (rw leaves refl))
