-- ===== src/Polyline.antt =====
-- Encoded routes: decodePolyline of frontend/src/lib/polyline.ts.
-- A text is the list of its code units. JavaScript's 32-bit operations are written out on bit
-- patterns below 2 ^ 32. A decoded coordinate is the whole number of 1e-5 degrees that the source
-- divides by 1e5 at the end. Behind the end of the text `charCodeAt` is NaN, which ends a value.
use Prim.Native.Nat.{bit_or}
use travel_planner.Base.{
  ℕ, zero, suc, ◌+◌, ◌-◌, ◌*◌, ◌/◌, ◌%◌, ◌^◌, ◌==◌, ltb, leb, Bool, List, [], ◌∷◌, length,
  if◌then◌else◌, Code,
}
use travel_planner.Base.Int.{ℤ, pos, negsuc, ◌+ℤ◌}
pub mod Bits
pub mod Values
pub mod RoundTrip

-- `(byte & 0x1f)` for `byte = code - 63`, also where that is negative.
abbrev pub low_bits : ℕ → ℕ
low_bits code = (code + 1) % 32

-- `byte >= 0x20`
abbrev pub has_more : ℕ → Bool
has_more code = leb 95 code

-- `x << shift` on int32: the count is taken modulo 32.
abbrev pub shift_left : ℕ → ℕ → ℕ
shift_left x shift = (x * 2 ^ (shift % 32)) % 2 ^ 32

-- The inner loop: the bit pattern of one value, and the rest of the text.
unfoldable pub read_value : Code → (result shift : ℕ) → ℕ × Code
read_value [] result shift = (result, [])
read_value (c ∷ cs) result shift =
    let result' = bit_or result (shift_left (low_bits c) shift) in
    let later = read_value cs result' (shift + 5) in if has_more c then later else (result', cs)

abbrev pub signed : ℕ → ℤ
signed word = if ltb word (2 ^ 31) then pos word else negsuc (2 ^ 32 - word - 1)

-- `x >> 1` and `~x`
abbrev pub halved : ℤ → ℤ
halved (pos n) = pos (n / 2)
halved (negsuc n) = negsuc (n / 2)

abbrev pub complement : ℤ → ℤ
complement (pos n) = negsuc n
complement (negsuc n) = pos n

-- `result & 1 ? ~(result >> 1) : result >> 1`
unfoldable pub delta : ℕ → ℤ
delta word = if word % 2 == 1 then complement (halved (signed word)) else halved (signed word)

-- The outer loop, from a position of the text and of the route, on fuel.
unfoldable pub points_from : ℕ → Code → (lat lng : ℤ) → List (ℤ × ℤ)
points_from zero text lat lng = []
points_from (suc fuel) [] lat lng = []
points_from (suc fuel) (c ∷ cs) lat lng =
    let (lat_word, after_lat) = read_value (c ∷ cs) 0 0 in
    let (lng_word, after_lng) = read_value after_lat 0 0 in
    let lat' = lat +ℤ delta lat_word in
    let lng' = lng +ℤ delta lng_word in (lat', lng') ∷ points_from fuel after_lng lat' lng'

-- Each round takes at least one code unit.
unfoldable pub decode_polyline : Code → List (ℤ × ℤ)
decode_polyline encoded = points_from (length encoded) encoded (pos 0) (pos 0)
