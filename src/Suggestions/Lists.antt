-- ===== src/Suggestions/Lists.antt =====
-- Selecting, filtering and sorting suggestions.
use travel_planner.Base.{
  ◌+◌, ◌≡◌, refl, ap, ◌∙◌, String, Bool, true, false, not, ◌&&◌, Option, List, [], ◌∷◌, str_eq,
  tally, to_ℕ, arith, Bool-cases, inl, inr,
}
use travel_planner.Format.{Delta}
use travel_planner.Suggestions.{
  SuggestionCategory, Suggestion, flip, toggle_suggestion, is_of, by_category, goes_after,
  insert_favourite, by_favourites, visible_suggestions,
}

not-not : (b : Bool) → not (not b) ≡ b
not-not true = refl
not-not false = refl

module _ {F : Type 0} {A : Type 0} where
  flip-flip : (s : Suggestion F × A) → flip (flip s) ≡ s
  flip-flip (s, extra) = ap (λ b. (record s { selected = b }, extra)) (not-not s.selected)

  -- Two taps on a suggestion leave the list as it was.
  pub toggle_suggestion-twice :
      (id : String) (list : List (Suggestion F × A))
      → toggle_suggestion id (toggle_suggestion id list) ≡ list
  unfolding toggle_suggestion
  toggle_suggestion-twice id [] = refl
  toggle_suggestion-twice id ((s, extra) ∷ list) = elim (Bool-cases (str_eq s.id id)) [
    | inl it ↦
        rw it
          (simp (it, toggle_suggestion-twice id list) (ap (λ t. t ∷ list) (flip-flip (s, extra))))
    | inr other ↦ simp (other, toggle_suggestion-twice id list)
  ]

  module _ (net : String → Delta) (less : F → F → Bool) where
    tally-insert_favourite :
        (p : Suggestion F × A → Bool) (s : Suggestion F × A) (list : List (Suggestion F × A))
        → tally p (insert_favourite net less s list) ≡ to_ℕ (p s) + tally p list
    tally-insert_favourite p s [] = refl
    tally-insert_favourite p s (t ∷ ts) = elim (Bool-cases (goes_after net less s t)) [
      | inl after ↦ rw after (omega (arith, tally-insert_favourite p s ts))
      | inr before ↦ rw before refl
    ]

    tally-by_favourites :
        (p : Suggestion F × A → Bool) (list : List (Suggestion F × A))
        → tally p (by_favourites net less list) ≡ tally p list
    tally-by_favourites p [] = refl
    tally-by_favourites p (s ∷ ss) =
        omega
          (arith, tally-insert_favourite p s (by_favourites net less ss), tally-by_favourites p ss)

    tally-by_category :
        (p : Suggestion F × A → Bool) (active : Option SuggestionCategory)
        (list : List (Suggestion F × A))
        → tally p (by_category active list) ≡ tally (λ s. is_of active s && p s) list
    unfolding by_category
    tally-by_category p active [] = refl
    tally-by_category p active (s ∷ list) = ground (arith, tally-by_category p active list)

    -- The page shows the suggestions of the chosen category and no others, each as often as the
    -- list has it, whether or not it ranks them by votes.
    pub tally-visible_suggestions :
        (p : Suggestion F × A → Bool) (by_votes : Bool) (active : Option SuggestionCategory)
        (list : List (Suggestion F × A))
        → tally p (visible_suggestions net less by_votes active list)
          ≡ tally (λ s. is_of active s && p s) list
    unfolding visible_suggestions
    tally-visible_suggestions p true active list =
        tally-by_favourites p (by_category active list) ∙ tally-by_category p active list
    tally-visible_suggestions p false active list = tally-by_category p active list
