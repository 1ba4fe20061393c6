-- ===== src/Base/Codes.antt =====
-- Texts that the code walks, as lists of code units.
use Prim.Native.Nat.{ℕ, zero, suc, ◌+◌, ◌-◌, ◌/◌, ◌%◌, ◌<◌, ◌≤◌}
use mathlib.Core.Path.{◌≡◌, refl, ap, ◌∙◌}
use mathlib.Core.Logic.{◌↔◌, ◌≢◌}
use mathlib.Core.Bool.{Bool, true, false, ◌&&◌, ◌||◌}
use mathlib.Core.Option.{Option, none, some}
use mathlib.Core.List.{List, [], ◌∷◌, ◌++◌}
use native.Mathlib.Omega.{arith}
use travel_planner.Base.Tests.{◌==◌, leb, if◌then◌else◌}
use travel_planner.Base.Lists.{All}

abbrev pub Code : Type 0
Code = List ℕ

unfoldable pub code_eq : Code → Code → Bool
code_eq [] [] = true
code_eq [] (y ∷ ys) = false
code_eq (x ∷ xs) [] = false
code_eq (x ∷ xs) (y ∷ ys) = x == y && code_eq xs ys

pub code_eq_self : (xs : Code) → code_eq xs xs ≡ true
unfolding code_eq
code_eq_self [] = refl
code_eq_self (x ∷ xs) = ground (arith, code_eq_self xs)

pub eq_of_code_eq : (xs ys : Code) → code_eq xs ys ≡ true → xs ≡ ys
unfolding code_eq
eq_of_code_eq [] [] h = refl
eq_of_code_eq [] (y ∷ ys) h = absurd (cc)
eq_of_code_eq (x ∷ xs) [] h = absurd (cc)
eq_of_code_eq (x ∷ xs) (y ∷ ys) h = ground (arith, eq_of_code_eq xs ys)

pub code_eq_iff : (xs ys : Code) → (code_eq xs ys ≡ true) ↔ (xs ≡ ys)
code_eq_iff xs ys = (eq_of_code_eq xs ys, λ e. rw e (code_eq_self ys))

-- What follows a prefix, if the text has it.
abbrev pub strip : Code → Code → Option Code
strip [] xs = some xs
strip (p ∷ ps) [] = none
strip (p ∷ ps) (x ∷ xs) = let rest = strip ps xs in if p == x then rest else none

-- `s.startsWith(p)`
abbrev pub starts_with : Code → Code → Bool
starts_with s p = elim (strip p s) [ none ↦ false | some _ ↦ true ]

-- `s.includes(c)` for one code unit
abbrev pub includes_code : Code → ℕ → Bool
includes_code [] c = false
includes_code (x ∷ xs) c = x == c || includes_code xs c

pub strip-append : (p xs : Code) → strip p (p ++ xs) ≡ some xs
strip-append [] xs = refl
strip-append (x ∷ p) xs = ground (arith, strip-append p xs)

abbrev pub is_digit : ℕ → Bool
is_digit c = leb 48 c && leb c 57

-- The decimal digits of a number, on fuel, in front of a text.
show_onto : ℕ → ℕ → Code → Code
show_onto zero n tail = tail
show_onto (suc fuel) n tail =
    let rest = show_onto fuel (n / 10) ((48 + n % 10) ∷ tail) in
    if leb n 9 then (48 + n) ∷ tail else rest

-- `String(n)`
unfoldable pub show : ℕ → Code
unfolding show_onto
show n = show_onto (suc n) n []

show_onto-digits :
    (fuel n : ℕ) (tail : Code)
    → All (λ c. is_digit c ≡ true) tail
    → All (λ c. is_digit c ≡ true) (show_onto fuel n tail)
unfolding show_onto
show_onto-digits zero n tail h = h
show_onto-digits (suc fuel) n tail h =
    ground (arith, show_onto-digits fuel (n / 10) ((48 + n % 10) ∷ tail))

pub show-digits : (n : ℕ) → All (λ c. is_digit c ≡ true) (show n)
unfolding show
show-digits n = show_onto-digits (suc n) n [] tt

-- The number has at least one digit.
show_onto-ne-nil : (fuel n c : ℕ) (tail : Code) → show_onto fuel n (c ∷ tail) ≢ []
unfolding show_onto
show_onto-ne-nil zero n c tail e = cc
show_onto-ne-nil (suc fuel) n c tail e =
    ground (arith, show_onto-ne-nil fuel (n / 10) (48 + n % 10) (c ∷ tail))

pub show-ne-nil : (n : ℕ) → show n ≢ []
unfolding show
show-ne-nil n e = ground (arith, show_onto-ne-nil n (n / 10) (48 + n % 10) [])

show_onto_three :
    (fuel n : ℕ)
    → 100 ≤ n
    → n < 1000
    → show_onto (suc (suc (suc fuel))) n []
      ≡ (48 + n / 100) ∷ (48 + n / 10 % 10) ∷ (48 + n % 10) ∷ []
unfolding show_onto
show_onto_three fuel n low high = ground arith

-- A number below 1000 and above 99 shows as its three digits.
pub show_three :
    (n : ℕ) → 100 ≤ n → n < 1000 → show n ≡ (48 + n / 100) ∷ (48 + n / 10 % 10) ∷ (48 + n % 10) ∷ []
unfolding show
show_three n low high =
    let e : n ≡ suc (suc (n - 2)) = omega arith in
    ap (λ fuel. show_onto (suc fuel) n []) e ∙ show_onto_three (n - 2) n low high
