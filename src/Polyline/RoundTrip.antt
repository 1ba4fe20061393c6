-- ===== src/Polyline/RoundTrip.antt =====
-- Whole routes: the loops end, and what was encoded is decoded.
use Prim.Native.Nat.{bit_or}
use travel_planner.Base.{
  ℕ, zero, suc, ◌+◌, ◌^◌, ◌≤◌, ◌<◌, ◌≡◌, refl, ap, ◌∙◌, List, [], ◌∷◌, ◌++◌, Code, arith, length,
  length-append, Bool-cases, inl, inr,
}
use travel_planner.Base.Int.{ℤ, pos, ◌+ℤ◌, ◌-ℤ◌, +ℤ-step}
use travel_planner.Polyline.{
  read_value, has_more, low_bits, shift_left, delta, points_from, decode_polyline,
}
use travel_planner.Polyline.Values.{
  zigzag, encode_word, encode_value, read_value-encode_word, delta-zigzag,
}

-- The format of a route: the differences from each point to the next, from the origin on.
abbrev pub encode_from : (lat lng : ℤ) → List (ℤ × ℤ) → Code
encode_from lat lng [] = []
encode_from lat lng ((a, b) ∷ ps) =
    encode_value (a -ℤ lat) ++ (encode_value (b -ℤ lng) ++ encode_from a b ps)

-- Every difference fits into 31 digits, as those of coordinates on the earth do by far.
abbrev pub IsNear : (lat lng : ℤ) → List (ℤ × ℤ) → Type 0
IsNear lat lng [] = Unit
IsNear lat lng ((a, b) ∷ ps) =
    (zigzag (a -ℤ lat) < 2 ^ 31) × (zigzag (b -ℤ lng) < 2 ^ 31) × IsNear a b ps

read_value-encode_value :
    (v : ℤ) (rest : Code)
    → zigzag v < 2 ^ 31
    → read_value (encode_value v ++ rest) 0 0 ≡ (zigzag v, rest)
read_value-encode_value v rest h =
    read_value-encode_word 6 (zigzag v) 0 0 rest (omega arith) (omega arith) (omega arith)
      (omega arith)
    ∙ ap (λ (n : ℕ). (n, rest)) (omega arith)

encode_word-length : (more word : ℕ) → 1 ≤ length (encode_word more word)
encode_word-length zero word = omega arith
encode_word-length (suc more) word = ground arith

-- One round of the outer loop.
points_round :
    (fuel : ℕ) (text : Code) (lat lng : ℤ) (lat_word lng_word : ℕ) (after_lat after_lng : Code)
    → 1 ≤ length text
    → read_value text 0 0 ≡ (lat_word, after_lat)
    → read_value after_lat 0 0 ≡ (lng_word, after_lng)
    → points_from (suc fuel) text lat lng
      ≡ (lat +ℤ delta lat_word, lng +ℤ delta lng_word)
        ∷ points_from fuel after_lng (lat +ℤ delta lat_word) (lng +ℤ delta lng_word)
unfolding points_from
points_round fuel [] lat lng lat_word lng_word after_lat after_lng some first second =
    absurd (omega arith)
points_round fuel (c ∷ cs) lat lng lat_word lng_word after_lat after_lng some first second =
    rw (first, second) refl

encode_some : (lat lng a b : ℤ) (ps : List (ℤ × ℤ)) → 1 ≤ length (encode_from lat lng ((a, b) ∷ ps))
encode_some lat lng a b ps = omega (
  arith,
  length-append (encode_value (a -ℤ lat)) (encode_value (b -ℤ lng) ++ encode_from a b ps),
  encode_word-length 6 (zigzag (a -ℤ lat)),
)

points_from-encode :
    (fuel : ℕ) (lat lng : ℤ) (ps : List (ℤ × ℤ))
    → IsNear lat lng ps
    → length ps ≤ fuel
    → points_from fuel (encode_from lat lng ps) lat lng ≡ ps
unfolding points_from
points_from-encode zero lat lng [] near h = refl
points_from-encode (suc fuel) lat lng [] near h = refl
points_from-encode zero lat lng ((a, b) ∷ ps) near h = absurd (omega arith)
points_from-encode (suc fuel) lat lng ((a, b) ∷ ps) (first, second, near) h =
    let to_a : lat +ℤ delta (zigzag (a -ℤ lat)) ≡ a =
      ap (λ d. lat +ℤ d) (delta-zigzag (a -ℤ lat) first) ∙ +ℤ-step lat a in
    let to_b : lng +ℤ delta (zigzag (b -ℤ lng)) ≡ b =
      ap (λ d. lng +ℤ d) (delta-zigzag (b -ℤ lng) second) ∙ +ℤ-step lng b in
    points_round fuel (encode_from lat lng ((a, b) ∷ ps)) lat lng (zigzag (a -ℤ lat))
      (zigzag (b -ℤ lng)) (encode_value (b -ℤ lng) ++ encode_from a b ps) (encode_from a b ps)
      (encode_some lat lng a b ps)
      (read_value-encode_value (a -ℤ lat) (encode_value (b -ℤ lng) ++ encode_from a b ps) first)
      (read_value-encode_value (b -ℤ lng) (encode_from a b ps) second)
    ∙ rw (to_a, to_b) (ap (λ qs. (a, b) ∷ qs) (points_from-encode fuel a b ps near (omega arith)))

length-encode_from : (lat lng : ℤ) (ps : List (ℤ × ℤ)) → length ps ≤ length (encode_from lat lng ps)
length-encode_from lat lng [] = omega arith
length-encode_from lat lng ((a, b) ∷ ps) = omega (
  arith,
  length-encode_from a b ps,
  length-append (encode_value (a -ℤ lat)) (encode_value (b -ℤ lng) ++ encode_from a b ps),
  length-append (encode_value (b -ℤ lng)) (encode_from a b ps),
  encode_word-length 6 (zigzag (a -ℤ lat)),
)

-- A route whose points lie less than 2 ^ 30 units of 1e-5 degrees apart, the first from the
-- origin, is decoded from its encoding point by point.
pub decode_polyline-encode :
    (ps : List (ℤ × ℤ))
    → IsNear (pos 0) (pos 0) ps
    → decode_polyline (encode_from (pos 0) (pos 0) ps) ≡ ps
unfolding decode_polyline
decode_polyline-encode ps near =
    points_from-encode (length (encode_from (pos 0) (pos 0) ps)) (pos 0) (pos 0) ps near
      (length-encode_from (pos 0) (pos 0) ps)

length-chunk_lt :
    (c : ℕ) (cs : Code) (result shift : ℕ)
    → ((r s : ℕ) → length (read_value cs r s).1 ≤ length cs)
    → length (read_value (c ∷ cs) result shift).1 ≤ length cs
unfolding read_value
length-chunk_lt c cs result shift rest = elim (Bool-cases (has_more c)) [
  | inl more ↦ rw more (rest (bit_or result (shift_left (low_bits c) shift)) (shift + 5))
  | inr last ↦ rw last (omega arith)
]

length-read_value :
    (text : Code) (result shift : ℕ) → length (read_value text result shift).1 ≤ length text
unfolding read_value
length-read_value [] result shift = omega arith
length-read_value (c ∷ cs) result shift =
    omega (arith, length-chunk_lt c cs result shift (length-read_value cs))

points_from-any :
    (n m : ℕ) (text : Code) (lat lng : ℤ)
    → length text ≤ n
    → length text ≤ m
    → points_from n text lat lng ≡ points_from m text lat lng
unfolding points_from
points_from-any zero zero text lat lng h k = refl
points_from-any zero (suc m) [] lat lng h k = refl
points_from-any zero (suc m) (c ∷ cs) lat lng h k = absurd (omega arith)
points_from-any (suc n) zero [] lat lng h k = refl
points_from-any (suc n) zero (c ∷ cs) lat lng h k = absurd (omega arith)
points_from-any (suc n) (suc m) [] lat lng h k = refl
points_from-any (suc n) (suc m) (c ∷ cs) lat lng h k =
    let first = length-chunk_lt c cs 0 0 (length-read_value cs) in
    let second = length-read_value (read_value (c ∷ cs) 0 0).1 0 0 in
    let a = lat +ℤ delta (read_value (c ∷ cs) 0 0).0 in
    let b = lng +ℤ delta (read_value (read_value (c ∷ cs) 0 0).1 0 0).0 in
    ap (λ qs. (a, b) ∷ qs)
      (points_from-any n m (read_value (read_value (c ∷ cs) 0 0).1 0 0).1 a b (omega arith)
        (omega arith))

-- Decoding ends for every text, well formed or not: from any position of the route, as many rounds
-- as the text has code units are enough, since any larger number of rounds gives the same points.
pub points_from-ends :
    (fuel : ℕ) (text : Code) (lat lng : ℤ)
    → length text ≤ fuel
    → points_from fuel text lat lng ≡ points_from (length text) text lat lng
points_from-ends fuel text lat lng h =
    points_from-any fuel (length text) text lat lng h (omega arith)
