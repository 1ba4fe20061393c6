-- ===== src/Polyline/Values.antt =====
-- One value of an encoded route, written and read.
use Prim.Native.Nat.{bit_or}
use native.Mathlib.Nat.{pow-suc, mul-le-mul_right}
use travel_planner.Base.{
  ℕ, zero, suc, ◌+◌, ◌*◌, ◌/◌, ◌%◌, ◌^◌, ◌≤◌, ◌<◌, ltb, leb, ◌≡◌, refl, ap, ◌∙◌, true, false, [],
  ◌∷◌, ◌++◌, if◌then◌else◌, Code, arith, Bool-cases, inl, inr,
}
use travel_planner.Base.Int.{ℤ, pos, negsuc}
use travel_planner.Polyline.{shift_left, read_value, delta}
use travel_planner.Polyline.Bits.{bit_or-multiple}

-- The format: a value is shifted left by one digit, with all its digits inverted if it is negative.
abbrev pub zigzag : ℤ → ℕ
zigzag (pos n) = n * 2
zigzag (negsuc n) = n * 2 + 1

-- Its digits to the base 32 are written from the lowest, each plus 63, and plus 32 more if others
-- follow; `more` is the largest number of digits that follow.
abbrev pub encode_word : (more word : ℕ) → Code
encode_word zero word = (word + 63) ∷ []
encode_word (suc more) word =
    let later = encode_word more (word / 32) in
    if ltb word 32 then (word + 63) ∷ [] else (word % 32 + 95) ∷ later

-- Six digits after the first one are enough for 32 bits.
abbrev pub encode_value : ℤ → Code
encode_value v = encode_word 6 (zigzag v)

shift_left-fits :
    (x shift : ℕ) → shift < 32 → x * 2 ^ shift < 2 ^ 32 → shift_left x shift ≡ x * 2 ^ shift
shift_left-fits x shift count fits =
    let same : shift % 32 ≡ shift = omega arith in rw same (omega arith)

joined :
    (result x shift : ℕ)
    → shift < 32
    → x * 2 ^ shift < 2 ^ 32
    → result < 2 ^ shift
    → bit_or result (shift_left x shift) ≡ result + x * 2 ^ shift
joined result x shift count fits low =
    ap (bit_or result) (shift_left-fits x shift count fits) ∙ bit_or-multiple shift result x low

-- The lowest digit and the others make up the word.
spread : (q m p : ℕ) → m * p + q * (p * 32) ≡ (q * 32 + m) * p
spread q m p = grind arith

digits_sum : (word p : ℕ) → word % 32 * p + word / 32 * (p * 32) ≡ word * p
digits_sum word p =
    let whole : word / 32 * 32 + word % 32 ≡ word = omega arith in
    spread (word / 32) (word % 32) p ∙ ap (λ (n : ℕ). n * p) whole

pow_five : (shift : ℕ) → 2 ^ (shift + 5) ≡ 2 ^ shift * 32
pow_five shift =
    let five : shift + 5 ≡ suc (suc (suc (suc (suc shift)))) = omega arith in
    rw five (
      omega (
        arith,
        pow-suc 2 shift,
        pow-suc 2 (suc shift),
        pow-suc 2 (suc (suc shift)),
        pow-suc 2 (suc (suc (suc shift))),
        pow-suc 2 (suc (suc (suc (suc shift)))),
      ))

module _ (result shift : ℕ) (rest : Code) where
  chunk_last :
      (word : ℕ)
      → word < 32
      → shift < 32
      → word * 2 ^ shift < 2 ^ 32
      → result < 2 ^ shift
      → read_value ((word + 63) ∷ rest) result shift ≡ (result + word * 2 ^ shift, rest)
  unfolding read_value
  chunk_last word small count fits low =
      let digit : (word + 63 + 1) % 32 ≡ word = omega arith in
      let ends : leb 95 (word + 63) ≡ false = ground arith in
      rw (digit, ends, joined result word shift count fits low) refl

  chunk_more :
      (word : ℕ)
      → shift < 32
      → word % 32 * 2 ^ shift < 2 ^ 32
      → result < 2 ^ shift
      → read_value ((word % 32 + 95) ∷ rest) result shift
        ≡ read_value rest (result + word % 32 * 2 ^ shift) (shift + 5)
  unfolding read_value
  chunk_more word count fits low =
      let digit : (word % 32 + 95 + 1) % 32 ≡ word % 32 = omega arith in
      let goes_on : leb 95 (word % 32 + 95) ≡ true = ground arith in
      rw (digit, goes_on, joined result (word % 32) shift count fits low) refl

-- A value reads back from its digits, whatever follows them.
pub read_value-encode_word :
    (more word result shift : ℕ) (rest : Code)
    → word < 32 * 32 ^ more
    → shift + 5 * more < 32
    → word * 2 ^ shift < 2 ^ 32
    → result < 2 ^ shift
    → read_value (encode_word more word ++ rest) result shift ≡ (result + word * 2 ^ shift, rest)
read_value-encode_word zero word result shift rest small count fits low =
    chunk_last result shift rest word (omega arith) (omega arith) fits low
read_value-encode_word (suc more) word result shift rest small count fits low =
    elim (Bool-cases (ltb word 32)) [
      | inl last ↦ rw last (chunk_last result shift rest word (ground arith) (omega arith) fits low)
      | inr follows ↦
          let whole = digits_sum word (2 ^ shift) in
          let digit : word % 32 * 2 ^ shift ≤ 31 * 2 ^ shift =
            mul-le-mul_right (2 ^ shift) (omega arith) in
          rw follows (
            chunk_more result shift (encode_word more (word / 32) ++ rest) word (omega arith)
              (omega arith) low
            ∙ read_value-encode_word more (word / 32) (result + word % 32 * 2 ^ shift) (shift + 5)
                rest (omega (arith, pow-suc 32 more)) (omega arith)
                (rw (pow_five shift) (omega arith)) (omega (arith, pow_five shift))
            ∙ ap (λ (n : ℕ). (n, rest)) (rw (pow_five shift) (omega arith)))
    ]

pub delta-zigzag : (v : ℤ) → zigzag v < 2 ^ 31 → delta (zigzag v) ≡ v
unfolding delta
delta-zigzag (pos n) h = ground arith
delta-zigzag (negsuc n) h = ground arith
