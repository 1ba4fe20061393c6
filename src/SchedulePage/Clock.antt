-- ===== src/SchedulePage/Clock.antt =====
-- A time of day as it is shown.
use travel_planner.Base.{
  ℕ, suc, zero, ◌+◌, ◌-◌, ◌*◌, ◌%◌, ◌==◌, ltb, leb, ◌≡◌, ◌<◌, refl, ap, ◌∙◌, Bool, true, false,
  ◌&&◌, Option, none, some, List, [], ◌∷◌, if◌then◌else◌, Code, show, arith, Bool-cases, inl, inr,
}
use travel_planner.Session.{split}
use travel_planner.SchedulePage.{pad_two, clock, minute_text, of_parts, format_time}

-- Only the hours 1 to 12 stand on a clock; 65 is "A", and 80 is "P".
abbrev on_clock : (hour minute half : ℕ) → Option (ℕ × ℕ)
on_clock hour minute half =
    if leb 1 hour && leb hour 12 && ltb minute 60
    then (if half == 65
        then some (hour % 12, minute)
        else if half == 80
        then some (hour % 12 + 12, minute)
        else none)
    else none

-- The hour and the minute of a text such as "9:05 AM": 48 is the digit 0, 58 the colon, 32 the
-- space and 77 is "M".
unfoldable pub read_clock : Code → Option (ℕ × ℕ)
read_clock (a ∷ colon ∷ c ∷ d ∷ space ∷ half ∷ m ∷ []) =
    if colon == 58 && space == 32 && m == 77
    then on_clock (a - 48) (10 * (c - 48) + (d - 48)) half
    else none
read_clock (a ∷ b ∷ colon ∷ c ∷ d ∷ space ∷ half ∷ m ∷ []) =
    if colon == 58 && space == 32 && m == 77
    then on_clock (10 * (a - 48) + (b - 48)) (10 * (c - 48) + (d - 48)) half
    else none
read_clock _ = none

abbrev pub read_shown : Option Code → Option (ℕ × ℕ)
read_shown none = none
read_shown (some text) = read_clock text

unfoldable all_below : ℕ → (ℕ → Bool) → Bool
all_below zero p = true
all_below (suc n) p = p n && all_below n p

all_below_lem : (n : ℕ) (p : ℕ → Bool) (i : ℕ) → all_below n p ≡ true → i < n → p i ≡ true
unfolding all_below
all_below_lem zero p i all low = absurd (omega (arith, low))
all_below_lem (suc n) p i all low = elim (Bool-cases (i == n)) [
  | inl same ↦ let e : i ≡ n = ground (arith, same) in rw e (ground (arith, all))
  | inr other ↦ all_below_lem n p i (ground (arith, all)) (ground (arith, low, other))
]

abbrev is_read : ℕ → ℕ → Bool
is_read h m = elim (read_clock (clock h (pad_two (show m)))) [
  | none ↦ false
  | some (hour, minute) ↦ hour == h && minute == m
]

every_minute : all_below 24 (λ h. all_below 60 (λ m. is_read h m)) ≡ true
unfolding all_below read_clock show
every_minute = refl

read_of :
    (time : Option (ℕ × ℕ)) (h m : ℕ)
    → (elim time [ none ↦ false | some (hour, minute) ↦ hour == h && minute == m ]) ≡ true
    → time ≡ some (h, m)
read_of none h m e = absurd (cc)
read_of (some (hour, minute)) h m e =
    let same_hour : hour ≡ h = ground (arith, e) in
    let same_minute : minute ≡ m = ground (arith, e) in rw (same_hour, same_minute) refl

read_clock-clock :
    (h m : ℕ) → h < 24 → m < 60 → read_clock (clock h (pad_two (show m))) ≡ some (h, m)
read_clock-clock h m day hour = read_of (read_clock (clock h (pad_two (show m)))) h m (
    all_below_lem 60 (λ m. is_read h m) m
      (all_below_lem 24 (λ h. all_below 60 (λ m. is_read h m)) h every_minute day) hour)

of_parts-some :
    (number : Code → Option ℕ) (hour minute : Code) (rest : List Code) (h m : ℕ)
    → number hour ≡ some h
    → number minute ≡ some m
    → of_parts number (hour, minute ∷ rest) ≡ some (clock h (pad_two (show m)))
of_parts-some number hour minute rest h m is_hour is_minute =
    rw (is_hour, of_parts) (rw (is_minute, minute_text) refl)

-- A text with a colon whose first two parts are read as an hour of the day and a minute, such as
-- "13:07" or "13:07:00", is shown so that a clock of twelve hours with AM or PM tells the same hour
-- and the same minute. Such a clock has the hours 1 to 12 only, and a minute has two digits.
pub read_clock-format_time :
    (number : Code → Option ℕ) (time hour minute : Code) (rest : List Code) (h m : ℕ)
    → split 58 time ≡ (hour, minute ∷ rest)
    → number hour ≡ some h
    → number minute ≡ some m
    → h < 24
    → m < 60
    → read_shown (format_time number (some time)) ≡ some (h, m)
unfolding format_time
read_clock-format_time number [] hour minute rest h m parts is_hour is_minute day in_hour =
    absurd (cc)
read_clock-format_time number (c ∷ cs) hour minute rest h m parts is_hour is_minute day in_hour =
    ap (λ ps. read_shown (of_parts number ps)) parts
    ∙ ap read_shown (of_parts-some number hour minute rest h m is_hour is_minute)
    ∙ read_clock-clock h m day in_hour
