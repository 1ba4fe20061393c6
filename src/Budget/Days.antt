-- ===== src/Budget/Days.antt =====
-- The expenses under their days.
use travel_planner.Base.{
  ℕ, ◌+◌, ◌≡◌, refl, ap, ◌∙◌, String, Bool, true, false, Option, none, some, List, [], ◌∷◌, tally,
  to_ℕ, All, arith, Bool-cases, inl, inr, ◌otherwise◌, tally_groups, IsKeyed, grouped_by_lem,
}
use travel_planner.Types.{ItineraryDay}
use travel_planner.Budget.{
  Expense, insert_by_date, by_date, groups, number_of, is_before, insert_key, ordered_keys,
}

module _ {F : Type 0} (earlier : String → String → Bool) where
  tally-insert_by_date :
      (q : Expense F → Bool) (x : Expense F) (xs : List (Expense F))
      → tally q (insert_by_date earlier x xs) ≡ to_ℕ (q x) + tally q xs
  tally-insert_by_date q x [] = refl
  tally-insert_by_date q x (y ∷ ys) = elim (Bool-cases (earlier y.spent_on x.spent_on)) [
    | inl after ↦ rw after (omega (arith, tally-insert_by_date q x ys))
    | inr before ↦ rw before refl
  ]

  tally-by_date :
      (q : Expense F → Bool) (xs : List (Expense F)) → tally q (by_date earlier xs) ≡ tally q xs
  tally-by_date q [] = refl
  tally-by_date q (x ∷ xs) =
      omega (arith, tally-insert_by_date q x (by_date earlier xs), tally-by_date q xs)

  -- The page lists every expense once, under its own day or among those without a day.
  pub groups_lem :
      (expenses : List (Expense F))
      → ((q : Expense F → Bool)
          → tally_groups (λ x. x.itinerary_day_id otherwise "") q (groups earlier expenses)
            ≡ tally q expenses)
        × IsKeyed (λ x. x.itinerary_day_id otherwise "") (groups earlier expenses)
  unfolding groups
  groups_lem expenses =
      let (all_there, keyed) =
        grouped_by_lem (λ (x : Expense F). x.itinerary_day_id otherwise "")
          (by_date earlier expenses) in
      (λ q. all_there q ∙ tally-by_date q expenses, keyed)

-- No later key has a smaller day number, and no key with a number follows one without.
abbrev pub IsOrdered : List ItineraryDay → List String → Type 0
IsOrdered days [] = Unit
IsOrdered days (k ∷ ks) =
    All (λ l. is_before (number_of days l) (number_of days k) ≡ false) ks × IsOrdered days ks

module _ (days : List ItineraryDay) where
  All-insert_key :
      (P : String → Type 0) (k : String) (ks : List String)
      → P k
      → All P ks
      → All P (insert_key days k ks)
  All-insert_key P k [] h hs = (h, tt)
  All-insert_key P k (l ∷ ls) h (here, hs) =
      elim (Bool-cases (is_before (number_of days l) (number_of days k))) [
        | inl after ↦ rw after (here, All-insert_key P k ls h hs)
        | inr before ↦ rw before (h, (here, hs))
      ]

  is_before_trans :
      (a b c : Option ℕ) → is_before b a ≡ false → is_before c b ≡ false → is_before c a ≡ false
  is_before_trans a b none h k = refl
  is_before_trans none none (some c) h k = absurd (cc)
  is_before_trans none (some b) (some c) h k = absurd (cc)
  is_before_trans (some a) none (some c) h k = absurd (cc)
  is_before_trans (some a) (some b) (some c) h k = ground arith

  is_before_asym : (a b : Option ℕ) → is_before a b ≡ true → is_before b a ≡ false
  is_before_asym none b h = absurd (cc)
  is_before_asym (some a) none h = refl
  is_before_asym (some a) (some b) h = ground arith

  All-later :
      (k l : String) (ls : List String)
      → is_before (number_of days l) (number_of days k) ≡ false
      → All (λ m. is_before (number_of days m) (number_of days l) ≡ false) ls
      → All (λ m. is_before (number_of days m) (number_of days k) ≡ false) ls
  All-later k l [] first h = tt
  All-later k l (m ∷ ls) first (here, h) = (
    is_before_trans (number_of days k) (number_of days l) (number_of days m) first here,
    All-later k l ls first h,
  )

  insert_key-IsOrdered :
      (k : String) (ks : List String) → IsOrdered days ks → IsOrdered days (insert_key days k ks)
  insert_key-IsOrdered k [] h = (tt, tt)
  insert_key-IsOrdered k (l ∷ ls) (first, h) =
      elim (Bool-cases (is_before (number_of days l) (number_of days k))) [
        | inl after ↦ rw after (
          All-insert_key (λ m. is_before (number_of days m) (number_of days l) ≡ false) k ls
              (is_before_asym (number_of days l) (number_of days k) after) first,
          insert_key-IsOrdered k ls h,
        )
        | inr before ↦ rw before ((before, All-later k l ls before first), (first, h))
      ]

  tally-insert_key :
      (q : String → Bool) (k : String) (ks : List String)
      → tally q (insert_key days k ks) ≡ to_ℕ (q k) + tally q ks
  tally-insert_key q k [] = refl
  tally-insert_key q k (l ∷ ls) =
      elim (Bool-cases (is_before (number_of days l) (number_of days k))) [
        | inl after ↦ rw after (omega (arith, tally-insert_key q k ls))
        | inr before ↦ rw before refl
      ]

  -- The days of the expenses are listed once each by ascending number, and those that the
  -- itinerary does not have, as well as the expenses without a day, come last.
  pub ordered_keys_lem :
      (keys : List String)
      → IsOrdered days (ordered_keys days keys)
        × ((q : String → Bool) → tally q (ordered_keys days keys) ≡ tally q keys)
  unfolding ordered_keys
  ordered_keys_lem [] = (tt, λ q. refl)
  ordered_keys_lem (k ∷ ks) =
      let (ordered, same) = ordered_keys_lem ks in
      (
        insert_key-IsOrdered k (ordered_keys days ks) ordered,
        λ q. tally-insert_key q k (ordered_keys days ks) ∙ ap (λ (n : ℕ). to_ℕ (q k) + n) (same q),
      )
