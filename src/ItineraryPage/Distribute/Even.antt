-- ===== src/ItineraryPage/Distribute/Even.antt =====
-- The chunks of a distribution are even, and a day keeps the stops that it has in front.
use travel_planner.Base.{
  ℕ, ◌+◌, ◌/◌, ◌%◌, ◌≤◌, ◌≡◌, refl, String, List, [], ◌∷◌, ◌++◌, length, drop, All, arith, ap, ◌∙◌,
  length-take, length-drop,
}
use travel_planner.Types.{ItineraryDay}
use travel_planner.ItineraryPage.Distribute.{day_ids, fill, buckets}
use travel_planner.ItineraryPage.Distribute.Spread.{shares, share, chunk, chunk_lem, shares-total}

-- A bucket is the stops that the day has, followed by `least` or `least + 1` new ones.
abbrev pub IsEven : ℕ → ItineraryDay × List String → Type 0
IsEven least (d, bucket) =
    (added : List String) × (bucket ≡ day_ids d ++ added)
    × (least ≤ length added)
    × (length added ≤ least + 1)

module _ (per_day remainder : ℕ) (pending : List String) where
  length-chunk :
      (i cursor more : ℕ)
      → cursor + share per_day remainder pending i + more ≡ length pending
      → length (chunk per_day remainder pending i cursor) ≡ share per_day remainder pending i
  length-chunk i cursor more h =
      ap length (chunk_lem per_day remainder pending i cursor)
      ∙ length-take (share per_day remainder pending i) (drop cursor pending)
      ∙ (omega (arith, length-drop cursor pending))

  fill-IsEven :
      (i cursor : ℕ) (ds : List ItineraryDay)
      → cursor + shares per_day remainder i ds ≡ length pending
      → All (IsEven per_day) (fill per_day remainder pending i cursor ds)
  unfolding fill chunk
  fill-IsEven i cursor [] h = tt
  fill-IsEven i cursor (d ∷ ds) h =
      let size = length-chunk i cursor (shares per_day remainder (i + 1) ds) (omega arith) in
      (
        (chunk per_day remainder pending i cursor, refl, ground arith, ground arith),
        fill-IsEven (i + 1) (cursor + share per_day remainder pending i) ds (omega arith),
      )

-- When there is a day, the bucket of every day is its own stops followed by new ones, and how many
-- new ones a day gets differs by at most one between the days: it is the number of pending stops
-- divided by the number of days, or one more.
pub buckets-IsEven :
    (d : ItineraryDay) (ds : List ItineraryDay) (pending : List String)
    → All (IsEven (length pending / length (d ∷ ds))) (buckets (d ∷ ds) pending)
unfolding buckets
buckets-IsEven d ds pending =
    fill-IsEven (length pending / length (d ∷ ds)) (length pending % length (d ∷ ds)) pending 0 0
      (d ∷ ds) (omega (arith, shares-total (length pending) d ds))
