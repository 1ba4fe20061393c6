-- ===== src/Confirm/Answers.antt =====
-- Every question is answered once, and only a click confirms.
use travel_planner.Base.{
  ℕ, ◌+◌, ◌≤◌, ◌==◌, ltb, ◌≡◌, refl, Bool, true, false, none, some, List, [], ◌∷◌, tally, to_ℕ,
  is_some, arith,
}
use travel_planner.Confirm.{Dialog, ask, settle, Event, asks, opens, cancels, confirms, step, run}

-- The question waits for its answer.
abbrev pub is_pending : ℕ → Dialog → Bool
is_pending n d = elim d.resolver [ none ↦ false | some k ↦ k == n ]

abbrev pub answers : ℕ → Dialog → ℕ
answers n d = tally (λ r. r.0 == n) d.resolved

abbrev pub confirmed : Dialog → ℕ
confirmed d = tally (λ r. r.1) d.resolved

abbrev pub is_confirm : Event → Bool
is_confirm confirms = true
is_confirm _ = false

-- The dialog is open exactly while a question waits, and every question that was asked either
-- waits or has been answered once.
pub record IsServed (d : Dialog) : Type 0 where
  pub shown : is_some d.options ≡ is_some d.resolver
  pub once : (n : ℕ) → answers n d + to_ℕ (is_pending n d) ≡ to_ℕ (ltb n d.asked)

step-IsServed : (e : Event) (d : Dialog) → IsServed d → IsServed (step e d)
unfolding step ask settle
step-IsServed (asks opts) d h = record { shown = refl; once = λ n. ground (arith, h.once n) }
step-IsServed (opens true) d h = h
step-IsServed (opens false) d h = record { shown = refl; once = λ n. ground (arith, h.once n) }
step-IsServed cancels d h = record { shown = refl; once = λ n. ground (arith, h.once n) }
step-IsServed confirms d h = record { shown = refl; once = λ n. ground (arith, h.once n) }

-- Whatever the pages ask and the user does, in any order, the dialog stays open exactly while a
-- question waits, and every question asked so far waits or has been answered exactly once.
pub run-IsServed : (es : List Event) (d : Dialog) → IsServed d → IsServed (run es d)
unfolding run
run-IsServed [] d h = h
run-IsServed (e ∷ es) d h = run-IsServed es (step e d) (step-IsServed e d h)

confirmed-step : (e : Event) (d : Dialog) → confirmed (step e d) ≤ confirmed d + to_ℕ (is_confirm e)
unfolding step ask settle
confirmed-step (opens true) d = ground arith
confirmed-step _ d = ground arith

-- No question is answered with yes but by a click on the confirming button: there are at most as
-- many such answers as clicks.
pub confirmed-run :
    (es : List Event) (d : Dialog) → confirmed (run es d) ≤ confirmed d + tally is_confirm es
unfolding run
confirmed-run [] d = omega arith
confirmed-run (e ∷ es) d = omega (arith, confirmed-step e d, confirmed-run es (step e d))
