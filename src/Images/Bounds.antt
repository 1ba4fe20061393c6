-- ===== src/Images/Bounds.antt =====
-- The size of a drawn image.
use travel_planner.Base.{
  ℕ, ◌≡◌, ◌≤◌, ◌*◌, ◌+◌, leb, arith, Bool-cases, inl, inr, true, if◌then◌else◌,
}
use native.Mathlib.Nat.{mul-le-mul_left, mul-le-mul_right}
use travel_planner.Images.{scaled, max_edge}

-- `nearest w m` is a natural number next to 1600 w / m; of two that are as near it may be either.
unfoldable pub IsNearest : (ℕ → ℕ → ℕ) → Type 0
IsNearest nearest =
    (w m : ℕ)
    → 1 ≤ m
    → (2 * (m * nearest w m) ≤ 2 * (1600 * w) + m) × (2 * (1600 * w) ≤ 2 * (m * nearest w m) + m)

nearest-small : (n w m : ℕ) → w ≤ m → 2 * (m * n) ≤ 2 * (1600 * w) + m → 1 ≤ m → n ≤ 1600
nearest-small n w m within low some_m = elim (Bool-cases (leb n 1600)) [
  | inl small ↦ ground (arith, small)
  | inr large ↦
      let over : m * 1601 ≤ m * n = mul-le-mul_left m (ground (arith, large)) in
      absurd (omega (arith, over, low, within, some_m))
]

nearest-smaller : (n w m : ℕ) → 1601 ≤ m → 1 ≤ w → 2 * (m * n) ≤ 2 * (1600 * w) + m → n ≤ w
nearest-smaller n w m long some_w low = elim (Bool-cases (leb n w)) [
  | inl small ↦ ground (arith, small)
  | inr large ↦
      let over : m * (w + 1) ≤ m * n = mul-le-mul_left m (ground (arith, large)) in
      let wide : 1601 * w ≤ m * w = mul-le-mul_right w long in
      absurd (omega (arith, over, low, wide, some_w))
]

nearest-large : (n m : ℕ) → 2 * (1600 * m) ≤ 2 * (m * n) + m → 1 ≤ m → 1600 ≤ n
nearest-large n m high some_m = elim (Bool-cases (leb n 1599)) [
  | inr large ↦ ground (arith, large)
  | inl small ↦
      let under : m * n ≤ m * 1599 = mul-le-mul_left m (ground (arith, small)) in
      absurd (omega (arith, under, high, some_m))
]

pub side-bounded :
    (nearest : ℕ → ℕ → ℕ) (w m : ℕ)
    → IsNearest nearest
    → 1 ≤ w
    → w ≤ m
    → (1 ≤ scaled nearest w m) × (scaled nearest w m ≤ max_edge) × (scaled nearest w m ≤ w)
unfolding scaled IsNearest
side-bounded nearest w m near some_w within = elim (Bool-cases (leb m 1600)) [
  | inl short ↦ rw short (
    ground (arith, short, some_w, within),
    ground (arith, short, some_w, within),
    ground (arith, short, some_w, within),
  )
  | inr long ↦
      let (low, high) = near w m (omega (arith, some_w, within)) in
      let small = nearest-small (nearest w m) w m within low (omega (arith, some_w, within)) in
      let smaller = nearest-smaller (nearest w m) w m (ground (arith, long)) some_w low in
      rw long (ground (arith, small), ground (arith, small), ground (arith, smaller, some_w))
]

-- The longer side of an image that is shrunk becomes 1600.
longer-scaled :
    (nearest : ℕ → ℕ → ℕ) (m : ℕ) → IsNearest nearest → 1601 ≤ m → scaled nearest m m ≡ max_edge
unfolding scaled IsNearest
longer-scaled nearest m near long =
    let (low, high) = near m m (omega (arith, long)) in
    let some_m : 1 ≤ m = omega (arith, long) in
    let small = nearest-small (nearest m m) m m (omega arith) low some_m in
    ground (arith, long, nearest-large (nearest m m) m high some_m, small)

short-scaled :
    (nearest : ℕ → ℕ → ℕ) (m : ℕ)
    → 1 ≤ m
    → leb m max_edge ≡ true
    → scaled nearest m m ≡ (if leb m max_edge then m else max_edge)
unfolding scaled
short-scaled nearest m some_m short = rw short (ground (arith, some_m))

-- With `nearest` a nearest natural number: a side of a drawn image is at least 1, at most 1600 and
-- at most the side of the photo, and the longer side is as long as the photo's or 1600.
pub scaled-bounded :
    (nearest : ℕ → ℕ → ℕ) (w m : ℕ)
    → IsNearest nearest
    → 1 ≤ w
    → w ≤ m
    → (1 ≤ scaled nearest w m)
      × (scaled nearest w m ≤ max_edge)
      × (scaled nearest w m ≤ w)
      × (scaled nearest m m ≡ (if leb m max_edge then m else max_edge))
scaled-bounded nearest w m near some_w within =
    let (low, high, smaller) = side-bounded nearest w m near some_w within in
    (
      low,
      high,
      smaller,
      elim (Bool-cases (leb m 1600)) [
        | inl short ↦ short-scaled nearest m (omega (arith, some_w, within)) short
        | inr long ↦ rw long (longer-scaled nearest m near (ground (arith, long)))
      ],
    )
