-- ===== src/Api/Concurrent/Progress.antt =====
-- Overlapping requests end.
use travel_planner.Base.{
  ℕ, suc, ◌+◌, ◌≤◌, ◌<◌, ◌≡◌, refl, ap, Bool, true, false, Option, none, List, [], ◌∷◌, ◌++◌, map,
  to_ℕ, sum_by, tally-append, Bool-cases, Option-cases, ◌⊎◌, inl, inr, Code, arith, All,
  if◌then◌else◌,
}
use travel_planner.Api.{network, session_expired, Result, err, Api}
use travel_planner.Api.Request.{Out, held, answered, signed_out}
use travel_planner.Api.Concurrent.{
  Phase, fetching, joined, woken, ended, Pending, Client, moved, refresh_access_token, finished,
  is_expired, responded, wake, refresh_settled, resumed, Work, responds, rejects, refreshes,
  resumes, Run,
}
use travel_planner.Api.Concurrent.Counts.{is_joined, phase_count, IsCounted, is_expired-first}
use travel_planner.Api.Concurrent.Traffic.{Work-IsCounted, quiet, Run-IsCounted}

weight-positive : (is_retry : Bool) → 1 ≤ (if is_retry then 1 else 5)
weight-positive true = omega arith
weight-positive false = omega arith

module _ {P : Type 0} where
  sum_by-append :
      (f : Pending P → ℕ) (xs ys : List (Pending P))
      → sum_by f (xs ++ ys) ≡ sum_by f xs + sum_by f ys
  sum_by-append f [] ys = omega arith
  sum_by-append f (x ∷ xs) ys = omega (arith, sum_by-append f xs ys)

  -- A bound on what a request has still to do.
  abbrev weight : Phase P → ℕ
  weight (fetching is_retry) = if is_retry then 1 else 5
  weight joined = 3
  weight (woken token) = 2
  weight (ended r) = 0

  abbrev pub to_do : Client P → ℕ
  to_do c = to_ℕ c.refreshing + sum_by (λ (r : Pending P). weight r.phase) c.calls

  to_do-moved :
      (before after : List (Pending P)) (r : Pending P) (phase : Phase P) (calls : List (Pending P))
      → calls ≡ before ++ r ∷ after
      → sum_by (λ (s : Pending P). weight s.phase) (before ++ moved phase r ∷ after)
          + weight r.phase
        ≡ sum_by (λ (s : Pending P). weight s.phase) calls + weight phase
  to_do-moved before after r phase calls e = rw e (
      omega (
        arith,
        sum_by-append (λ (s : Pending P). weight s.phase) before (moved phase r ∷ after),
        sum_by-append (λ (s : Pending P). weight s.phase) before (r ∷ after),
      ))

  to_do-wake :
      (token : Option Code) (calls : List (Pending P))
      → sum_by (λ (r : Pending P). weight r.phase) (map (wake token) calls)
        ≤ sum_by (λ (r : Pending P). weight r.phase) calls
  to_do-wake token [] = omega arith
  to_do-wake token (r ∷ calls) = omega (arith, here_lem r.phase refl, to_do-wake token calls)
    where
      here_lem : (phase : Phase P) → r.phase ≡ phase → weight (wake token r).phase ≤ weight r.phase
      here_lem joined stands = rw stands (omega arith)
      here_lem (fetching b) stands = rw stands (omega arith)
      here_lem (woken t) stands = rw stands (omega arith)
      here_lem (ended x) stands = rw stands (omega arith)

  to_do-refresh : (c : Client P) → to_do (refresh_access_token c) ≤ 1 + to_do c
  unfolding refresh_access_token
  to_do-refresh c = ground arith

  finished-to_do :
      (c : Client P) (before after : List (Pending P)) (r : Pending P) (out : Out P)
      → c.calls ≡ before ++ r ∷ after
      → 1 ≤ weight r.phase
      → to_do (finished before r after out c) < to_do c
  finished-to_do c before after r out e positive =
      omega (arith, to_do-moved before after r (ended out.0) c.calls e, positive)

  -- Every section brings its client closer to the end.
  pub Work-to_do : {c d : Client P} → Work c d → to_do d < to_do c
  unfolding responded refresh_settled resumed
  Work-to_do {c = c} (responds before after r is_retry res e at_fetch) =
      elim (Bool-cases (is_expired is_retry r.path res)) [
        | inl expired ↦
            let is_initial = is_expired-first is_retry r.path res expired in
            let five : weight r.phase ≡ 5 = rw (at_fetch, is_initial) refl in
            rw expired (
              omega (
                arith,
                to_do-refresh (record c { calls = before ++ moved joined r ∷ after }),
                to_do-moved before after r joined c.calls e,
                five,
              ))
        | inr other ↦ rw other (
            finished-to_do c before after r (answered r.path res c.api) e
              (rw at_fetch (weight-positive is_retry)))
      ]
  Work-to_do {c = c} (rejects before after r is_retry e at_fetch) =
      finished-to_do c before after r (err network, c.api) e
        (rw at_fetch (weight-positive is_retry))
  Work-to_do {c = c} (refreshes token under_way) =
      ground (arith, under_way, to_do-wake token c.calls)
  Work-to_do {c = c} (resumes before after r token e at_wake) = elim (Option-cases (held token)) [
    | inl nothing ↦
        rw (nothing, resumed)
          (finished-to_do c before after r (err session_expired, signed_out c.api) e
            (rw at_wake (omega arith)))
    | inr (t, is_held) ↦
        let two : weight r.phase ≡ 2 = rw at_wake refl in
        rw (is_held, resumed)
          (omega (arith, to_do-moved before after r (fetching true) c.calls e, two))
  ]

  -- `n` sections in a row, with no request started meanwhile.
  pub data Works (c : Client P) : ℕ → Client P → Type 0 where
    idle : Works c 0 c
    then_works : {n : ℕ} {d e : Client P} → Works c n d → Work d e → Works c (suc n) e

  pub Works-bounded : {c : Client P} {n : ℕ} {d : Client P} → Works c n d → n + to_do d ≤ to_do c
  Works-bounded idle = omega arith
  Works-bounded (then_works ws w) = omega (arith, Works-bounded ws, Work-to_do w)

  abbrev pub HasEnded : Pending P → Type 0
  HasEnded r = (out : Result (Option P)) × (r.phase ≡ ended out)

  abbrev pub is_ended : Phase P → Bool
  is_ended (ended out) = true
  is_ended _ = false

  -- A request that has not ended, between the others.
  abbrev IsOpen : List (Pending P) → Type 0
  IsOpen calls =
      (before : List (Pending P)) × (r : Pending P) × (after : List (Pending P)) × (calls
        ≡ before ++ r ∷ after)
      × (is_ended r.phase ≡ false)

  unfinished_onto :
      (r : Pending P) (phase : Phase P) (calls : List (Pending P))
      → r.phase ≡ phase
      → All HasEnded calls ⊎ IsOpen calls
      → All HasEnded (r ∷ calls) ⊎ IsOpen (r ∷ calls)
  unfinished_onto r (ended out) calls stands (inl all_ended) = inl ((out, stands), all_ended)
  unfinished_onto r (ended out) calls stands (inr (before, s, after, e, not_ended)) =
      inr (r ∷ before, s, after, ap (λ l. r ∷ l) e, not_ended)
  unfinished_onto r joined calls stands h = inr ([], r, calls, refl, rw stands refl)
  unfinished_onto r (fetching b) calls stands h = inr ([], r, calls, refl, rw stands refl)
  unfinished_onto r (woken t) calls stands h = inr ([], r, calls, refl, rw stands refl)

  unfinished : (calls : List (Pending P)) → All HasEnded calls ⊎ IsOpen calls
  unfinished [] = inl tt
  unfinished (r ∷ calls) = unfinished_onto r r.phase calls refl (unfinished calls)

  ended-is_ended :
      (r : Pending P) (out : Result (Option P)) → r.phase ≡ ended out → is_ended r.phase ≡ true
  ended-is_ended r out stands = rw stands refl

  someone_waits :
      (c : Client P) (before after : List (Pending P)) (r : Pending P)
      → c.calls ≡ before ++ r ∷ after
      → r.phase ≡ joined
      → 1 ≤ phase_count is_joined c
  someone_waits c before after r e stands =
      let one : to_ℕ (is_joined r.phase) ≡ 1 = rw stands refl in
      rw e
        (omega (arith, one, tally-append (λ (s : Pending P). is_joined s.phase) before (r ∷ after)))

  -- A request that has not ended has a section to run, or waits for a refresh that is under way.
  can_work :
      {n : ℕ} {c : Client P} (before after : List (Pending P)) (r : Pending P)
      → IsCounted n c
      → c.calls ≡ before ++ r ∷ after
      → is_ended r.phase ≡ false
      → (d : Client P) × Work c d
  can_work {n} {c} before after r h e not_ended = by_phase r.phase refl
    where
      by_phase : (phase : Phase P) → r.phase ≡ phase → (d : Client P) × Work c d
      by_phase (ended out) stands =
          let is_over = ended-is_ended r out stands in absurd (ground (arith, is_over, not_ended))
      by_phase (fetching b) stands = (_, rejects before after r b e stands)
      by_phase (woken t) stands = (_, resumes before after r t e stands)
      by_phase joined stands = elim h.waits [
        | inl under_way ↦ (_, refreshes none under_way)
        | inr nobody ↦ absurd (omega (arith, nobody, someone_waits c before after r e stands))
      ]

  Works-IsCounted :
      {c : Client P} {n k : ℕ} {d : Client P}
      → IsCounted n c
      → Works c k d
      → (m : ℕ) × IsCounted m d
  Works-IsCounted {n = n} h idle = (n, h)
  Works-IsCounted h (then_works ws w) =
      let (m, counted) = Works-IsCounted h ws in (_, Work-IsCounted w counted)

  -- Requests that overlap all end: from any state that the client can come to, no more sections can
  -- follow without a new request than the state has to do, and as long as a request has not ended,
  -- some section can follow.
  pub Run-ends :
      (api : Api) {n : ℕ} {c : Client P} {k : ℕ} {d : Client P}
      → Run (quiet api) n c
      → Works c k d
      → (k ≤ to_do c) × (All HasEnded d.calls ⊎ ((e : Client P) × Work d e))
  Run-ends api {d = d} run ws =
      let bounded = Works-bounded ws in
      let (m, counted) = Works-IsCounted (Run-IsCounted api run) ws in
      (
        omega (arith, bounded),
        elim (unfinished d.calls) [
          | inl all_ended ↦ inl all_ended
          | inr (before, r, after, e, not_ended) ↦ inr (can_work before after r counted e not_ended)
        ],
      )
