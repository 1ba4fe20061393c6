-- ===== src/WaypointList/Reorder.antt =====
-- A drop moves one stop and leaves the order of the others.
use travel_planner.Base.{
  ℕ, zero, suc, ◌+◌, ◌<◌, ◌≡◌, refl, String, Bool, true, false, some, List, [], ◌∷◌, map, str_eq,
  if◌then◌else◌, get_elem?, find_index, keep, not, tally, length, to_ℕ, arith, ap, ◌∙◌, Bool-cases,
  Option-cases, inl, inr, sym,
}
use travel_planner.Types.{Waypoint}
use travel_planner.WaypointList.{remove_at, insert_at, move_item, is_waypoint, handle_drag_end}

module _ {A : Type 0} where
  tally-insert_at :
      (p : A → Bool) (i : ℕ) (x : A) (xs : List A)
      → tally p (insert_at i x xs) ≡ to_ℕ (p x) + tally p xs
  unfolding insert_at
  tally-insert_at p zero x xs = refl
  tally-insert_at p (suc i) x [] = refl
  tally-insert_at p (suc i) x (y ∷ ys) = omega (arith, tally-insert_at p i x ys)

  tally-remove_at :
      (p : A → Bool) (i : ℕ) (x : A) (xs : List A)
      → get_elem? xs i ≡ some x
      → to_ℕ (p x) + tally p (remove_at i xs) ≡ tally p xs
  unfolding remove_at
  tally-remove_at p i x [] e = absurd (cc)
  tally-remove_at p zero x (y ∷ ys) e = ground arith
  tally-remove_at p (suc i) x (y ∷ ys) e = omega (arith, tally-remove_at p i x ys e)

  pub tally-move_item :
      (p : A → Bool) (xs : List A) (from to : ℕ) → tally p (move_item xs from to) ≡ tally p xs
  unfolding move_item
  tally-move_item p xs from to = elim (Option-cases (get_elem? xs from)) [
    | inl outside ↦ rw (outside, move_item) refl
    | inr (x, inside) ↦
        rw (inside, move_item)
          (tally-insert_at p to x (remove_at from xs) ∙ tally-remove_at p from x xs inside)
  ]

  keep-insert_at :
      (p : A → Bool) (i : ℕ) (x : A) (xs : List A)
      → p x ≡ false
      → keep p (insert_at i x xs) ≡ keep p xs
  unfolding insert_at
  keep-insert_at p zero x xs h = rw h refl
  keep-insert_at p (suc i) x [] h = rw h refl
  keep-insert_at p (suc i) x (y ∷ ys) h =
      ap (λ r. if p y then y ∷ r else r) (keep-insert_at p i x ys h)

  keep-remove_at :
      (p : A → Bool) (i : ℕ) (x : A) (xs : List A)
      → get_elem? xs i ≡ some x
      → p x ≡ false
      → keep p (remove_at i xs) ≡ keep p xs
  unfolding remove_at
  keep-remove_at p i x [] e h = absurd (cc)
  keep-remove_at p zero x (y ∷ ys) e h = let same : y ≡ x = cc in rw same (rw h refl)
  keep-remove_at p (suc i) x (y ∷ ys) e h =
      ap (λ r. if p y then y ∷ r else r) (keep-remove_at p i x ys e h)

  get_elem?-insert_at :
      (i : ℕ) (x : A) (xs : List A) → i < suc (length xs) → get_elem? (insert_at i x xs) i ≡ some x
  unfolding insert_at
  get_elem?-insert_at zero x xs h = refl
  get_elem?-insert_at (suc i) x [] h = absurd (omega arith)
  get_elem?-insert_at (suc i) x (y ∷ ys) h = get_elem?-insert_at i x ys (omega arith)

  length-remove_at :
      (i : ℕ) (x : A) (xs : List A)
      → get_elem? xs i ≡ some x
      → suc (length (remove_at i xs)) ≡ length xs
  unfolding remove_at
  length-remove_at i x [] e = absurd (cc)
  length-remove_at zero x (y ∷ ys) e = refl
  length-remove_at (suc i) x (y ∷ ys) e = ap suc (length-remove_at i x ys e)

  pub find_index-get_elem? :
      (q : A → Bool) (xs : List A) (i : ℕ)
      → find_index q xs ≡ some i
      → (x : A) × (get_elem? xs i ≡ some x) × (q x ≡ true)
  find_index-get_elem? q [] i e = absurd (cc)
  find_index-get_elem? q (x ∷ xs) i e = elim (Bool-cases (q x)) [
    | inl here ↦
        let both : some 0 ≡ some i = rw here at e in
        let first : 0 ≡ i = cc in rw (← first) (x, refl, here)
    | inr later ↦ elim (Option-cases (find_index q xs)) [
      | inl missed ↦ absurd (ground arith)
      | inr (j, found) ↦
          let next : i ≡ suc j = ground arith in
          let (y, at, passes) = find_index-get_elem? q xs j found in rw next (y, at, passes)
    ]
  ]

  find_index-lt : (q : A → Bool) (xs : List A) (i : ℕ) → find_index q xs ≡ some i → i < length xs
  find_index-lt q [] i e = cc
  find_index-lt q (x ∷ xs) i e = elim (Bool-cases (q x)) [
    | inl here ↦ ground arith
    | inr there ↦ elim (Option-cases (find_index q xs)) [
      | inl missed ↦ ground arith
      | inr (j, found) ↦ ground (arith, find_index-lt q xs j found)
    ]
  ]

abbrev others : {F : Type 0} → String → List (Waypoint F) → List (Waypoint F)
others id ws = keep (λ v. not (is_waypoint id v)) ws

-- `after` is `before` with one stop moved to where another stood.
pub record IsMove {F : Type 0} (before after : List (Waypoint F)) (active over : String)
    : Type 0 where
  pub same_stops : (p : Waypoint F → Bool) → tally p after ≡ tally p before
  pub same_order : others active after ≡ others active before
  pub index : ℕ
  pub was_there : find_index (is_waypoint over) before ≡ some index
  pub moved : Waypoint F
  pub is_there : get_elem? after index ≡ some moved
  pub is_active : is_waypoint active moved ≡ true

move_item-IsMove :
    {F : Type 0} (waypoints : List (Waypoint F)) (active over : String) (old new : ℕ)
    → find_index (is_waypoint active) waypoints ≡ some old
    → find_index (is_waypoint over) waypoints ≡ some new
    → IsMove waypoints (move_item waypoints old new) active over
move_item-IsMove waypoints active over old new from to =
    let (w, at, is_it) = find_index-get_elem? (is_waypoint active) waypoints old from in
    let inside = find_index-lt (is_waypoint over) waypoints new to in
    let lengths = length-remove_at old w waypoints at in
    record {
      same_stops = λ p. tally-move_item p waypoints old new;
      same_order =
          unfold move_item in
          rw (at, move_item)
            (keep-insert_at _ new w (remove_at old waypoints) (rw is_it refl)
              ∙ keep-remove_at _ old w waypoints at (rw is_it refl));
      index = new;
      was_there = to;
      moved = w;
      is_there =
          unfold move_item in
          rw (at, move_item) (get_elem?-insert_at new w (remove_at old waypoints) (omega arith));
      is_active = is_it;
    }

-- A drop that asks for a new order asks for one with the same stops, as often, in which the dragged
-- stop stands where the stop under the pointer stood, and all others keep their order.
pub handle_drag_end-moves :
    {F : Type 0} (waypoints : List (Waypoint F)) (active over : String) (ids : List String)
    → handle_drag_end waypoints active (some over) ≡ some ids
    → (after : List (Waypoint F)) × (ids ≡ map (λ v. v.id) after)
      × IsMove waypoints after active over
unfolding handle_drag_end
handle_drag_end-moves waypoints active over ids e = elim (Bool-cases (str_eq active over)) [
  | inl self ↦ absurd (ground arith)
  | inr other ↦ elim (Option-cases (find_index (is_waypoint active) waypoints)) [
    | inl missed ↦ absurd (ground arith)
    | inr (old, from) ↦ elim (Option-cases (find_index (is_waypoint over) waypoints)) [
      | inl missed ↦ absurd (ground arith)
      | inr (new, to) ↦
          let asked : some (map (λ w. w.id) (move_item waypoints old new)) ≡ some ids =
            rw (other, from, to, handle_drag_end) at e in
          let same : map (λ w. w.id) (move_item waypoints old new) ≡ ids = cc in
          (
            move_item waypoints old new,
            sym same,
            move_item-IsMove waypoints active over old new from to,
          )
    ]
  ]
]
