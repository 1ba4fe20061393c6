-- ===== src/Session/Forward.antt =====
-- What a Set-Cookie header of the backend puts into the jar.
use mathlib.Core.Path.{subst}
use travel_planner.Base.{
  ℕ, ◌==◌, ◌≡◌, refl, sym, ap, ◌∙◌, inl, inr, Bool, true, false, not, ◌&&◌, Option, some, List, [],
  ◌∷◌, ◌++◌, All, arith, Bool-cases, Code, code_eq, code_eq_self, is_space,
}
use mathlib.Core.List.{reverse, reverse-cons, reverse-reverse}
use travel_planner.Session.{
  split, skip_spaces, trim_code, pair_of, Cookie, get, set, cookie_of, forward_refresh_cookie,
}

-- The code unit ends no part of a Set-Cookie header and is no white space.
abbrev pub is_plain : ℕ → Bool
is_plain c = not (c == 59) && not (c == 61) && not (is_space c)

abbrev pub IsToken : Code → Type 0
IsToken text = All (λ c. is_plain c ≡ true) text

split-append :
    (c : ℕ) (text rest : Code)
    → All (λ x. (x == c) ≡ false) text
    → split c (text ++ c ∷ rest) ≡ (text, (split c rest).0 ∷ (split c rest).1)
split-append c [] rest h = ground arith
split-append c (x ∷ text) rest (here, h) = rw (split-append c text rest h, here) refl

split-clean : (c : ℕ) (text : Code) → All (λ x. (x == c) ≡ false) text → split c text ≡ (text, [])
split-clean c [] h = refl
split-clean c (x ∷ text) (here, h) = rw (split-clean c text h, here) refl

All-append : (P : ℕ → Type 0) (xs ys : Code) → All P xs → All P ys → All P (xs ++ ys)
All-append P [] ys h k = k
All-append P (x ∷ xs) ys (here, h) k = (here, All-append P xs ys h k)

All-reverse : (P : ℕ → Type 0) (xs : Code) → All P xs → All P (reverse xs)
All-reverse P [] h = tt
All-reverse P (x ∷ xs) (here, h) =
    subst (All P) (sym (reverse-cons x xs))
      (All-append P (reverse xs) (x ∷ []) (All-reverse P xs h) (here, tt))

All-map : (P Q : ℕ → Type 0) (xs : Code) → ((x : ℕ) → P x → Q x) → All P xs → All Q xs
All-map P Q [] f h = tt
All-map P Q (x ∷ xs) f (here, h) = (f x here, All-map P Q xs f h)

skip_spaces-clean : (text : Code) → All (λ x. is_space x ≡ false) text → skip_spaces text ≡ text
skip_spaces-clean [] h = refl
skip_spaces-clean (x ∷ text) (here, h) = rw here refl

trim_code-clean : (text : Code) → All (λ x. is_space x ≡ false) text → trim_code text ≡ text
trim_code-clean text h = simp (
  skip_spaces-clean text h,
  skip_spaces-clean (reverse text) (All-reverse (λ x. is_space x ≡ false) text h),
  reverse-reverse text,
)

plain-space : (c : ℕ) → is_plain c ≡ true → is_space c ≡ false
plain-space c h = elim (Bool-cases (is_space c)) [
  | inl space ↦ absurd (ground (arith, h, space))
  | inr other ↦ other
]

not_equals : (c : ℕ) → is_plain c ≡ true → (c == 61) ≡ false
not_equals c h = elim (Bool-cases (c == 61)) [
  | inl same ↦ absurd (ground (arith, h, same))
  | inr other ↦ other
]

not_semicolon : (c : ℕ) → is_plain c ≡ true → (c == 59) ≡ false
not_semicolon c h = elim (Bool-cases (c == 59)) [
  | inl same ↦ absurd (ground (arith, h, same))
  | inr other ↦ other
]

get-set :
    (name : Code) (c : Cookie) (jar : List Cookie)
    → code_eq c.name name ≡ true
    → get name (set c jar) ≡ some c
get-set name c jar h = rw h refl

-- The part `name=value` of a header.
abbrev pub pair_text : Code → Code → Code
pair_text name value = name ++ 61 ∷ value

pair_text-All :
    (P : ℕ → Type 0) (name value : Code)
    → ((c : ℕ) → is_plain c ≡ true → P c)
    → P 61
    → IsToken name
    → IsToken value
    → All P (pair_text name value)
pair_text-All P name value f eq n v =
    All-append P name (61 ∷ value) (All-map (λ c. is_plain c ≡ true) P name f n)
      (eq, All-map (λ c. is_plain c ≡ true) P value f v)

module _ (parse_int : Code → Option ℕ) (name value : Code) (n : IsToken name)
    (v : IsToken value) where
  pair_of-pair_text : pair_of (pair_text name value) ≡ (name, some value)
  pair_of-pair_text =
      rw (split-append 61 name value (All-map (λ c. is_plain c ≡ true) _ name not_equals n))
        (rw (split-clean 61 value (All-map (λ c. is_plain c ≡ true) _ value not_equals v)) refl)

  pair_of-trimmed : pair_of (trim_code (pair_text name value)) ≡ (name, some value)
  pair_of-trimmed =
      rw
        (trim_code-clean (pair_text name value)
          (pair_text-All (λ x. is_space x ≡ false) name value plain-space refl n v))
        pair_of-pair_text

  split-pair_text :
      (rest : Code)
      → split 59 (pair_text name value ++ 59 ∷ rest)
        ≡ (pair_text name value, (split 59 rest).0 ∷ (split 59 rest).1)
  split-pair_text rest =
      split-append 59 (pair_text name value) rest
        (pair_text-All (λ x. (x == 59) ≡ false) name value not_semicolon refl n v)

  forward-some :
      (text rest : Code) (jar : List Cookie)
      → forward_refresh_cookie parse_int (some (text ++ 59 ∷ rest)) jar
        ≡ set (cookie_of parse_int (split 59 (text ++ 59 ∷ rest))) jar
  unfolding forward_refresh_cookie
  forward-some [] rest jar = refl
  forward-some (x ∷ text) rest jar = refl

  -- The backend sets a cookie, with any attributes. Then this site's jar holds a cookie of that
  -- name with that value, if neither has a white space, a `;` or a `=`.
  pub get-forward_refresh_cookie :
      (rest : Code) (jar : List Cookie)
      → (c : Cookie) × (get name
            (forward_refresh_cookie parse_int (some (pair_text name value ++ 59 ∷ rest)) jar)
          ≡ some c)
        × (c.value ≡ some value)
  get-forward_refresh_cookie rest jar =
      let c = cookie_of parse_int (split 59 (pair_text name value ++ 59 ∷ rest)) in
      let pair : pair_of (trim_code (split 59 (pair_text name value ++ 59 ∷ rest)).0)
          ≡ (name, some value) =
        rw (split-pair_text rest) pair_of-trimmed in
      let named : c.name ≡ name = ap (λ q. q.0) pair in
      (
        c,
        ap (get name) (forward-some (pair_text name value) rest jar)
            ∙ get-set name c jar (ap (λ k. code_eq k name) named ∙ code_eq_self name),
        ap (λ q. q.1) pair,
      )
