-- ===== src/Discovery/Pauses.antt =====
-- When discovery is paused.
use travel_planner.Base.{
  ℕ, ◌≡◌, refl, ap, ◌⊎◌, inl, inr, String, Bool, true, false, some, List, [], ◌∷◌, ◌++◌, any,
  str_eq, eq_iff, arith, Bool-cases, Code, ◌∙◌, ◌↔◌,
}
use travel_planner.Api.{guardrail}
use travel_planner.Discovery.{
  Quota, Event, quota_loaded, error_noted, pause_over, note_error, step, run,
}

-- The events that set or lift a pause.
abbrev pub is_change : Event → Bool
is_change pause_over = true
is_change (error_noted (guardrail text status code resets_at)) = str_eq code "budget_exhausted"
is_change _ = false

-- The last of these events that sets or lifts a pause is an error of the exhausted budget, which
-- names the instant.
pub record IsPausing (es : List Event) (instant : String) : Type 0 where
  pub before : List Event
  pub after : List Event
  pub text : Code
  pub status : ℕ
  pub split :
      es ≡ before ++ error_noted (guardrail text status "budget_exhausted" (some instant)) ∷ after
  pub still : any is_change after ≡ false

later : (e : Event) (es : List Event) (t : String) → IsPausing es t → IsPausing (e ∷ es) t
later e es t h = record {
  before = e ∷ h.before;
  after = h.after;
  text = h.text;
  status = h.status;
  split = ap (λ l. e ∷ l) h.split;
  still = h.still;
}

Outcome : List Event → Quota → String → Type 0
Outcome es q t = ((q.paused_until ≡ some t) × (any is_change es ≡ false)) ⊎ IsPausing es t

first :
    (e : Event) (es : List Event) (q : Quota) (t : String)
    → (step e q).paused_until ≡ some t
    → any is_change es ≡ false
    → Outcome (e ∷ es) q t
unfolding Outcome step note_error
first (quota_loaded n) es q t h still = inl (h, still)
first pause_over es q t h still = absurd (cc)
first (error_noted (guardrail text status code resets_at)) es q t h still =
    elim (Bool-cases (str_eq code "budget_exhausted")) [
      | inl budget ↦
          let named : resets_at ≡ some t = ground (arith, h, budget) in
          let known : code ≡ "budget_exhausted" = (eq_iff code "budget_exhausted").0 budget in
          inr (record {
            before = [];
            after = es;
            text = text;
            status = status;
            split = rw (named, known) refl;
            still = still;
          })
      | inr other ↦ inl (ground (arith, h, other), ground (arith, other, still))
    ]
first (error_noted _) es q t h still = inl (h, still)

paused_from :
    (es : List Event) (q : Quota) (t : String) → (run es q).paused_until ≡ some t → Outcome es q t
unfolding run Outcome
paused_from [] q t h = inl (h, refl)
paused_from (e ∷ es) q t h = elim (paused_from es (step e q) t h) [
  | inl (held, still) ↦ first e es q t held still
  | inr pausing ↦ inr (later e es t pausing)
]

step-kept : (e : Event) (q : Quota) → is_change e ≡ false → (step e q).paused_until ≡ q.paused_until
unfolding step note_error
step-kept (quota_loaded n) q h = refl
step-kept pause_over q h = absurd (cc)
step-kept (error_noted (guardrail text status code resets_at)) q h = ground (arith, h)
step-kept (error_noted _) q h = refl

run-kept :
    (es : List Event) (q : Quota)
    → any is_change es ≡ false
    → (run es q).paused_until ≡ q.paused_until
unfolding run
run-kept [] q h = refl
run-kept (e ∷ es) q h = elim (Bool-cases (is_change e)) [
  | inl here ↦ absurd (ground (arith, here, h))
  | inr other ↦ run-kept es (step e q) (simp other at h) ∙ step-kept e q other
]

run-append : (es fs : List Event) (q : Quota) → run (es ++ fs) q ≡ run fs (run es q)
unfolding run
run-append [] fs q = refl
run-append (e ∷ es) fs q = run-append es fs (step e q)

run-IsPausing :
    (es : List Event) (q : Quota) (t : String) → IsPausing es t → (run es q).paused_until ≡ some t
unfolding run step note_error
run-IsPausing es q t h =
    let cause = error_noted (guardrail h.text h.status "budget_exhausted" (some t)) in
    ap (λ l. (run l q).paused_until) h.split
    ∙ ap (λ u. u.paused_until) (run-append h.before (cause ∷ h.after) q)
    ∙ run-kept h.after (step cause (run h.before q)) h.still

paused_back :
    (es : List Event) (q : Quota) (t : String) → Outcome es q t → (run es q).paused_until ≡ some t
unfolding Outcome
paused_back es q t (inl (held, still)) = run-kept es q still ∙ held
paused_back es q t (inr pausing) = run-IsPausing es q t pausing

-- Discovery is paused until an instant exactly if it was so at the start and no event has set or
-- lifted a pause since, or if the last event that did was an error of the exhausted budget that
-- names the instant. So a loaded quota and every other error leave a pause as it is.
pub run-paused :
    (es : List Event) (q : Quota) (t : String)
    → ((run es q).paused_until ≡ some t)
      ↔ (((q.paused_until ≡ some t) × (any is_change es ≡ false)) ⊎ IsPausing es t)
unfolding Outcome
run-paused es q t = (paused_from es q t, paused_back es q t)
