-- ===== src/Base/Groups.antt =====
-- A JavaScript `Map` of arrays that a loop fills by key: `map.set(k, [...(map.get(k) ?? []), x])`.
-- The keys stand in the order of their first elements.
use Prim.Native.Nat.{ℕ, ◌+◌}
use Prim.Native.String.{String}
use mathlib.Core.Path.{◌≡◌, refl, sym}
use mathlib.Core.Logic.{inl, inr}
use mathlib.Core.Bool.{Bool}
use mathlib.Core.List.{List, [], ◌∷◌, ◌++◌}
use native.Mathlib.Omega.{arith}
use text.Mathlib.Text.{◌==◌ as str_eq}
use text.Mathlib.TextEquality.{eq_iff}
use travel_planner.Base.Tests.{if◌then◌else◌, Bool-cases, to_ℕ}
use travel_planner.Base.Lists.{All, tally, tally-append, sum_by}

module _ {A : Type 0} (key : A → String) where
  pub insert_grouped : A → List (String × List A) → List (String × List A)
  insert_grouped x [] = (key x, x ∷ []) ∷ []
  insert_grouped x ((k, xs) ∷ groups) =
      let later = insert_grouped x groups in
      if str_eq k (key x) then (k, xs ++ x ∷ []) ∷ groups else (k, xs) ∷ later

  pub grouped_onto : List (String × List A) → List A → List (String × List A)
  grouped_onto groups [] = groups
  grouped_onto groups (x ∷ xs) = grouped_onto (insert_grouped x groups) xs

  unfoldable pub grouped_by : List A → List (String × List A)
  unfolding grouped_onto insert_grouped
  grouped_by xs = grouped_onto [] xs

  -- How many of the grouped elements pass a test.
  abbrev pub tally_groups : (A → Bool) → List (String × List A) → ℕ
  tally_groups q groups = sum_by (λ g. tally q g.1) groups

  -- Every element of a group is of the group's key.
  abbrev pub IsKeyed : List (String × List A) → Type 0
  IsKeyed groups = All (λ g. All (λ x. key x ≡ g.0) g.1) groups

  tally-insert_grouped :
      (q : A → Bool) (x : A) (groups : List (String × List A))
      → tally_groups q (insert_grouped x groups) ≡ tally_groups q groups + to_ℕ (q x)
  unfolding insert_grouped
  tally-insert_grouped q x [] = omega arith
  tally-insert_grouped q x ((k, xs) ∷ groups) =
      ground (arith, tally-insert_grouped q x groups, tally-append q xs (x ∷ []))

  tally-grouped_onto :
      (q : A → Bool) (groups : List (String × List A)) (xs : List A)
      → tally_groups q (grouped_onto groups xs) ≡ tally_groups q groups + tally q xs
  unfolding grouped_onto
  tally-grouped_onto q groups [] = omega arith
  tally-grouped_onto q groups (x ∷ xs) =
      omega
        (arith, tally-grouped_onto q (insert_grouped x groups) xs, tally-insert_grouped q x groups)

  All-snoc :
      (k : String) (x : A) (xs : List A)
      → All (λ y. key y ≡ k) xs
      → key x ≡ k
      → All (λ y. key y ≡ k) (xs ++ x ∷ [])
  All-snoc k x [] h e = (e, tt)
  All-snoc k x (y ∷ xs) (here, h) e = (here, All-snoc k x xs h e)

  insert_grouped-IsKeyed :
      (x : A) (groups : List (String × List A)) → IsKeyed groups → IsKeyed (insert_grouped x groups)
  unfolding insert_grouped
  insert_grouped-IsKeyed x [] h = ((refl, tt), tt)
  insert_grouped-IsKeyed x ((k, xs) ∷ groups) (here, h) = elim (Bool-cases (str_eq k (key x))) [
    | inl same ↦ rw same (All-snoc k x xs here (sym ((eq_iff k (key x)).0 same)), h)
    | inr other ↦ rw other (here, insert_grouped-IsKeyed x groups h)
  ]

  grouped_onto-IsKeyed :
      (groups : List (String × List A)) (xs : List A)
      → IsKeyed groups
      → IsKeyed (grouped_onto groups xs)
  unfolding grouped_onto
  grouped_onto-IsKeyed groups [] h = h
  grouped_onto-IsKeyed groups (x ∷ xs) h =
      grouped_onto-IsKeyed (insert_grouped x groups) xs (insert_grouped-IsKeyed x groups h)

  -- The groups hold the elements, each as often as the list, under its own key only.
  pub grouped_by_lem :
      (xs : List A)
      → ((q : A → Bool) → tally_groups q (grouped_by xs) ≡ tally q xs) × IsKeyed (grouped_by xs)
  unfolding grouped_by
  grouped_by_lem xs = (
    λ q. unfold grouped_by in omega (arith, tally-grouped_onto q [] xs),
    grouped_onto-IsKeyed [] xs tt,
  )
