-- ===== src/Polyline/Bits.antt =====
-- Or on numbers without a common digit is a sum.
use Prim.Native.Nat.{max, bit_or, digits, bit_or-bitwise}
use native.Mathlib.Nat.{pow-suc, mul_assoc}
use travel_planner.Base.{
  ℕ, zero, suc, ◌+◌, ◌*◌, ◌/◌, ◌%◌, ◌^◌, ◌≤◌, ◌<◌, ◌≡◌, refl, sym, ap, ◌∙◌, arith,
}

abbrev or_digits : ℕ → ℕ → ℕ → ℕ
or_digits n a b = digits (λ c. c) max n a b

-- The count of digits does not matter, if it is large enough.
or_digits-any : (n m a b : ℕ) → a ≤ n → a ≤ m → or_digits n a b ≡ or_digits m a b
or_digits-any zero zero a b h k = refl
or_digits-any zero (suc m) zero b h k = refl
or_digits-any (suc n) zero zero b h k = refl
or_digits-any (suc n) (suc m) zero b h k = refl
or_digits-any zero m (suc a) b h k = absurd (omega arith)
or_digits-any (suc n) zero (suc a) b h k = absurd (omega arith)
or_digits-any (suc n) (suc m) (suc a) b h k =
    omega (arith, or_digits-any n m (suc a / 2) (b / 2) (omega arith) (omega arith))

bit_or-zero : (b : ℕ) → bit_or 0 b ≡ b
bit_or-zero b = bit_or-bitwise 0 b

bit_or-digit : (a b : ℕ) → bit_or a b ≡ bit_or (a / 2) (b / 2) * 2 + max (a % 2) (b % 2)
bit_or-digit zero b = omega (arith, bit_or-zero b, bit_or-zero (b / 2))
bit_or-digit (suc a) b = omega (
  arith,
  bit_or-bitwise (suc a) b,
  bit_or-bitwise (suc a / 2) (b / 2),
  or_digits-any a (suc a / 2) (suc a / 2) (b / 2) (omega arith) (omega arith),
)

bit_or-even : (a y : ℕ) → bit_or a (y * 2) ≡ bit_or (a / 2) y * 2 + a % 2
bit_or-even a y =
    let half : y * 2 / 2 ≡ y = omega arith in
    omega (arith, bit_or-digit a (y * 2), ap (bit_or (a / 2)) half)

-- A number below 2 ^ k and a multiple of 2 ^ k.
pub bit_or-multiple : (k a x : ℕ) → a < 2 ^ k → bit_or a (x * 2 ^ k) ≡ a + x * 2 ^ k
bit_or-multiple zero a x h =
    let none : a ≡ 0 = omega arith in rw none (omega (arith, bit_or-zero (x * 1)))
bit_or-multiple (suc k) a x h =
    let doubled : x * 2 ^ suc k ≡ x * 2 ^ k * 2 =
      ap (λ (n : ℕ). x * n) (pow-suc 2 k) ∙ sym (mul_assoc x (2 ^ k) 2) in
    let low : a < 2 ^ k * 2 = rw (pow-suc 2 k) at h in
    rw doubled (omega (arith, bit_or-even a (x * 2 ^ k), bit_or-multiple k (a / 2) x (omega arith)))
