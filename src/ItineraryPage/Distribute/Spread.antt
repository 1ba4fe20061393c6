-- ===== src/ItineraryPage/Distribute/Spread.antt =====
-- The chunks of a distribution.
use Prim.Native.Nat.{min}
use native.Mathlib.Nat.{div-add-mod', mod-lt}
use travel_planner.Base.{
  ℕ, zero, suc, ◌+◌, ◌-◌, ◌*◌, ◌/◌, ◌%◌, ◌≡◌, refl, String, Bool, true, false, List, [], ◌∷◌, ◌++◌,
  if◌then◌else◌, keep, length, slice, ltb, take, drop, All, arith, eq_refl, sym, ap, ◌∙◌,
}
use travel_planner.Types.{ItineraryDay}
use travel_planner.ItineraryPage.{Call, assign}
use travel_planner.ItineraryPage.Distribute.{
  includes, day_ids, fill, buckets, bucket_calls, distribute_calls,
}

-- The stops that a sequence of calls assigns, in order.
abbrev pub assigned : List Call → List String
assigned [] = []
assigned (assign d added ordered ∷ cs) = added ++ assigned cs
assigned (_ ∷ cs) = assigned cs

module _ {ℓ} {A : Type ℓ} where
  keep-skip :
      (q : A → Bool) (xs ys : List A) → All (λ x. q x ≡ false) xs → keep q (xs ++ ys) ≡ keep q ys
  keep-skip q [] ys h = refl
  keep-skip q (x ∷ xs) ys (no_x, h) = rw no_x (keep-skip q xs ys h)

  keep-All : (q : A → Bool) (xs : List A) → All (λ x. q x ≡ true) xs → keep q xs ≡ xs
  keep-All q [] h = refl
  keep-All q (x ∷ xs) (is_x, h) = rw is_x (ap (λ r. x ∷ r) (keep-All q xs h))

  All-take : (P : A → Type 0) (n : ℕ) (xs : List A) → All P xs → All P (take n xs)
  All-take P zero xs h = tt
  All-take P (suc n) [] h = tt
  All-take P (suc n) (x ∷ xs) (p, h) = (p, All-take P n xs h)

  All-drop : (P : A → Type 0) (n : ℕ) (xs : List A) → All P xs → All P (drop n xs)
  All-drop P zero xs h = h
  All-drop P (suc n) [] h = tt
  All-drop P (suc n) (x ∷ xs) (p, h) = All-drop P n xs h

  take_nil : (n : ℕ) → take {A = A} n [] ≡ []
  take_nil zero = refl
  take_nil (suc n) = refl

  drop_nil : (n : ℕ) → drop {A = A} n [] ≡ []
  drop_nil zero = refl
  drop_nil (suc n) = refl

  take-add : (a b : ℕ) (xs : List A) → take (a + b) xs ≡ take a xs ++ take b (drop a xs)
  take-add zero b xs = ap (λ n. take n xs) (omega arith)
  take-add (suc a) b [] = take_nil (suc a + b) ∙ sym (take_nil b)
  take-add (suc a) b (x ∷ xs) =
      let e : suc a + b ≡ suc (a + b) = omega arith in rw e (ap (λ r. x ∷ r) (take-add a b xs))

  drop-add : (a b : ℕ) (xs : List A) → drop (a + b) xs ≡ drop b (drop a xs)
  drop-add zero b xs = ap (λ n. drop n xs) (omega arith)
  drop-add (suc a) b [] = drop_nil (suc a + b) ∙ sym (drop_nil b)
  drop-add (suc a) b (x ∷ xs) =
      let e : suc a + b ≡ suc (a + b) = omega arith in rw e (drop-add a b xs)

  take-length : (n : ℕ) (xs : List A) → n ≡ length xs → take n xs ≡ xs
  take-length zero [] h = refl
  take-length zero (x ∷ xs) h = absurd (omega arith)
  take-length (suc n) [] h = refl
  take-length (suc n) (x ∷ xs) h = ap (λ r. x ∷ r) (take-length n xs (omega arith))

includes_weaken :
    (x : String) (xs ys : List String)
    → All (λ id. includes xs id ≡ true) ys
    → All (λ id. includes (x ∷ xs) id ≡ true) ys
includes_weaken x xs [] h = tt
includes_weaken x xs (y ∷ ys) (p, h) = (ground arith, includes_weaken x xs ys h)

includes_self : (xs : List String) → All (λ id. includes xs id ≡ true) xs
includes_self [] = tt
includes_self (x ∷ xs) = (ground (arith, eq_refl x), includes_weaken x xs xs (includes_self xs))

-- How many stops the days from index `i` on receive.
abbrev pub shares : ℕ → ℕ → ℕ → List ItineraryDay → ℕ
shares per_day remainder i [] = 0
shares per_day remainder i (d ∷ ds) =
    (per_day + (if ltb i remainder then 1 else 0)) + shares per_day remainder (i + 1) ds

shares_lem :
    (per_day remainder i : ℕ) (ds : List ItineraryDay)
    → shares per_day remainder i ds + min remainder i
      ≡ per_day * length ds + min remainder (i + length ds)
shares_lem per_day remainder i [] = omega arith
shares_lem per_day remainder i (d ∷ ds) = grind (arith, shares_lem per_day remainder (i + 1) ds)

-- None of these stops is among the pending ones.
abbrev pub AreApart : List String → List ItineraryDay → Type 0
AreApart pending days = All (λ d. All (λ id. includes pending id ≡ false) (day_ids d)) days

module _ (per_day remainder : ℕ) (pending : List String) where
  abbrev pub share : ℕ → ℕ
  share i = per_day + (if ltb i remainder then 1 else 0)

  unfoldable pub chunk : ℕ → ℕ → List String
  chunk i cursor = slice cursor (cursor + share i) pending

  pub chunk_lem : (i cursor : ℕ) → chunk i cursor ≡ take (share i) (drop cursor pending)
  unfolding chunk
  chunk_lem i cursor =
      ap (λ n. take n (drop cursor pending))
        (let e : cursor + share i - cursor ≡ share i = omega arith in e)

  chunk-included : (i cursor : ℕ) → keep (includes pending) (chunk i cursor) ≡ chunk i cursor
  chunk-included i cursor = keep-All (includes pending) (chunk i cursor) (
      rw (chunk_lem i cursor) (
        All-take (λ id. includes pending id ≡ true) (share i) (drop cursor pending)
          (All-drop (λ id. includes pending id ≡ true) cursor pending (includes_self pending))))

  assigned-head :
      (d : ItineraryDay) (bucket added : List String) (rest : List (ItineraryDay × List String))
      → keep (includes pending) bucket ≡ added
      → assigned (bucket_calls pending ((d, bucket) ∷ rest))
        ≡ added ++ assigned (bucket_calls pending rest)
  unfolding bucket_calls
  assigned-head d bucket [] rest e = rw (e, bucket_calls) refl
  assigned-head d bucket (id ∷ ids) rest e = rw (e, bucket_calls) refl

  assigned-fill :
      (i cursor : ℕ) (ds : List ItineraryDay)
      → AreApart pending ds
      → assigned (bucket_calls pending (fill per_day remainder pending i cursor ds))
        ≡ take (shares per_day remainder i ds) (drop cursor pending)
  unfolding fill bucket_calls chunk
  assigned-fill i cursor [] apart = refl
  assigned-fill i cursor (d ∷ ds) (here, apart) =
      assigned-head d (day_ids d ++ chunk i cursor) (chunk i cursor)
        (fill per_day remainder pending (i + 1) (cursor + share i) ds)
        (keep-skip (includes pending) (day_ids d) (chunk i cursor) here ∙ chunk-included i cursor)
      ∙ ap (λ r. chunk i cursor ++ r) (assigned-fill (i + 1) (cursor + share i) ds apart)
      ∙ ap (λ r. r ++ take (shares per_day remainder (i + 1) ds) (drop (cursor + share i) pending))
          (chunk_lem i cursor)
      ∙ ap
          (λ r.
            take (share i) (drop cursor pending) ++ take (shares per_day remainder (i + 1) ds) r)
          (drop-add cursor (share i) pending)
      ∙ sym (take-add (share i) (shares per_day remainder (i + 1) ds) (drop cursor pending))

pub shares-total :
    (n : ℕ) (d : ItineraryDay) (ds : List ItineraryDay)
    → shares (n / length (d ∷ ds)) (n % length (d ∷ ds)) 0 (d ∷ ds) ≡ n
shares-total n d ds = omega (
  arith,
  shares_lem (n / length (d ∷ ds)) (n % length (d ∷ ds)) 0 (d ∷ ds),
  div-add-mod' n (length (d ∷ ds)),
  mod-lt n {m = length (d ∷ ds)} (omega arith),
)

-- If no pending stop is on a day yet and there is a day, the calls of a distribution assign every
-- pending stop exactly once and keep the pending order across the days.
pub assigned-distribute_calls :
    (d : ItineraryDay) (ds : List ItineraryDay) (pending : List String)
    → AreApart pending (d ∷ ds)
    → assigned (distribute_calls (d ∷ ds) pending) ≡ pending
unfolding distribute_calls buckets
assigned-distribute_calls d ds pending apart =
    assigned-fill (length pending / length (d ∷ ds)) (length pending % length (d ∷ ds)) pending 0 0
      (d ∷ ds) apart
    ∙ take-length _ pending (shares-total (length pending) d ds)
