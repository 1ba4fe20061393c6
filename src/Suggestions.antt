-- ===== src/Suggestions.antt =====
-- Suggested stops, around the start and along the route: their types in frontend/src/types/index.ts
-- and what both discovery pages do with a list of them. Ratings and coordinates are of a type `F`.
use travel_planner.Base.{
  ℕ, String, Bool, true, false, not, Option, none, some, List, [], ◌∷◌, map, keep, str_eq,
  if◌then◌else◌, ltb, leb, ◌||◌, ◌&&◌, Code, codes,
}
use travel_planner.Types.{TripRole, viewer}
use travel_planner.Format.{Delta, ahead, behind}
pub mod Endpoints
pub mod Lists
pub mod Radius
pub mod Corridor

pub data SuggestionCategory : Type 0 where
  park restaurant landmark town other_category : SuggestionCategory

abbrev pub category_code : SuggestionCategory → Code
category_code park = codes "park"
category_code restaurant = codes "restaurant"
category_code landmark = codes "landmark"
category_code town = codes "town"
category_code other_category = codes "other"

abbrev pub category_eq : SuggestionCategory → SuggestionCategory → Bool
category_eq park park = true
category_eq restaurant restaurant = true
category_eq landmark landmark = true
category_eq town town = true
category_eq other_category other_category = true
category_eq _ _ = false

-- The fields that both kinds of suggestions have.
pub record Suggestion (F : Type 0) : Type 0 where
  pub id : String
  pub trip_id : String
  pub place_id : String
  pub name : String
  pub address : String
  pub lat : F
  pub lng : F
  pub category : SuggestionCategory
  pub rating : Option F
  pub user_ratings_total : Option ℕ
  pub quality_score : F
  pub selected : Bool
  pub created_at : String

-- Where the list on the page came from.
pub record CacheInfo : Type 0 where
  pub cached : Bool
  pub updated_at : Option String

abbrev pub delta_less : Delta → Delta → Bool
delta_less (ahead a) (ahead b) = ltb a b
delta_less (ahead a) (behind b) = false
delta_less (behind a) (ahead b) = ltb 0 a || ltb 0 b
delta_less (behind a) (behind b) = ltb b a

-- A suggestion with what one of the kinds adds to it.
module _ {F : Type 0} {A : Type 0} where
  abbrev pub is_suggestion : String → Suggestion F × A → Bool
  is_suggestion id (s, extra) = str_eq s.id id

  abbrev pub flip : Suggestion F × A → Suggestion F × A
  flip (s, extra) = (record s { selected = not s.selected }, extra)

  unfoldable pub toggle_suggestion : String → List (Suggestion F × A) → List (Suggestion F × A)
  toggle_suggestion id list = map (λ s. if is_suggestion id s then flip s else s) list

  abbrev pub is_selected : Suggestion F × A → Bool
  is_selected (s, extra) = s.selected

  unfoldable pub selected_ids : List (Suggestion F × A) → List String
  selected_ids list = map (λ s. s.0.id) (keep is_selected list)

  -- `none` is the filter "all".
  abbrev pub is_of : Option SuggestionCategory → Suggestion F × A → Bool
  is_of none s = true
  is_of (some c) (s, extra) = category_eq s.category c

  unfoldable pub by_category :
      Option SuggestionCategory → List (Suggestion F × A) → List (Suggestion F × A)
  by_category active list = keep (is_of active) list

  -- The comparison of the sort is positive for `a` before `b`: `b` has more net votes, or as many
  -- and a higher score. `net` are the votes, `less` the order of scores.
  abbrev pub goes_after :
      (String → Delta) → (F → F → Bool) → Suggestion F × A → Suggestion F × A → Bool
  goes_after net less (a, x) (b, y) =
      if delta_less (net a.id) (net b.id)
      then true
      else if delta_less (net b.id) (net a.id)
      then false
      else less a.quality_score b.quality_score

  -- The sort of arrays is stable.
  abbrev pub insert_favourite :
      (String → Delta)
      → (F → F → Bool)
      → Suggestion F × A
      → List (Suggestion F × A)
      → List (Suggestion F × A)
  insert_favourite net less s [] = s ∷ []
  insert_favourite net less s (t ∷ ts) =
      let later = insert_favourite net less s ts in
      if goes_after net less s t then t ∷ later else s ∷ t ∷ ts

  abbrev pub by_favourites :
      (String → Delta) → (F → F → Bool) → List (Suggestion F × A) → List (Suggestion F × A)
  by_favourites net less [] = []
  by_favourites net less (s ∷ ss) = insert_favourite net less s (by_favourites net less ss)

  unfoldable pub visible_suggestions :
      (String → Delta)
      → (F → F → Bool)
      → (by_votes : Bool) → Option SuggestionCategory
      → List (Suggestion F × A)
      → List (Suggestion F × A)
  unfolding by_category
  visible_suggestions net less by_votes active list =
      if by_votes then by_favourites net less (by_category active list) else by_category active list

-- What this person may do.
abbrev pub may_edit : Option TripRole → Bool
may_edit none = true
may_edit (some role) = elim role [ viewer ↦ false | _ ↦ true ]
