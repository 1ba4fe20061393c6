-- ===== src/Fetching/Latest.antt =====
-- Only the answer to the latest fetch counts.
use travel_planner.Base.{
  ℕ, suc, ◌==◌, ltb, ◌≡◌, refl, sym, ap, ◌∙◌, Bool, true, false, not, ◌&&◌, Option, none, some,
  List, [], ◌∷◌, if◌then◌else◌, arith, Bool-cases, inl, inr,
}
use travel_planner.Fetching.{
  Hook, Event, renders, settles, unmounts, Effect, clean, unchanged, begins, render, settled,
  settle_fetch, step, run,
}

-- The hook without variables of its own: the number of the fetch whose answer counts, if any.
pub record Latest (K S : Type 0) : Type 0 where
  pub deps : Option K
  pub asked : ℕ
  pub current : Option ℕ
  pub shown : S

abbrev pub is_current : Option ℕ → ℕ → Bool
is_current none n = false
is_current (some m) n = n == m

module _ {K S : Type 0} (effect : Effect K S) where
  unfoldable pub step_latest : Event K S → Latest K S → Latest K S
  step_latest (renders deps) l =
      if unchanged effect l.deps deps
      then l
      else if effect.fetches deps
      then record l { deps = some deps; asked = suc l.asked; current = some l.asked }
      else record l { deps = some deps; current = none }
  step_latest (settles n answer) l =
      if is_current l.current n then record l { shown = settled effect answer l.shown } else l
  step_latest unmounts l = record l { current = none }

  unfoldable pub run_latest : List (Event K S) → Latest K S → Latest K S
  unfolding step_latest
  run_latest [] l = l
  run_latest (e ∷ es) l = run_latest es (step_latest e l)

abbrev pub latest_of : {K S : Type 0} → Hook K S → Latest K S
latest_of h = record { deps = h.deps; asked = h.asked; current = h.cleanup; shown = h.shown }

-- A fetch is alive exactly if React still holds its cleanup.
unfoldable pub IsTracked : {K S : Type 0} → Hook K S → Type 0
IsTracked h = (n : ℕ) → (ltb n h.asked && not (h.cancelled n)) ≡ is_current h.cleanup n

module _ {K S : Type 0} (effect : Effect K S) where
  -- After the cleanup no fetch is alive.
  clean-quiet :
      (h : Hook K S) (c : Option ℕ) (n : ℕ)
      → (ltb n h.asked && not (h.cancelled n)) ≡ is_current c n
      → (ltb n (clean effect c h).asked && not ((clean effect c h).cancelled n)) ≡ false
  clean-quiet h none n tracked = tracked
  clean-quiet h (some m) n tracked = elim (Bool-cases (n == m)) [
    | inl same ↦ ground (arith, same)
    | inr other ↦ ground (arith, other, tracked)
  ]

  clean-latest :
      (h : Hook K S) (c : Option ℕ)
      → h.cleanup ≡ c
      → latest_of (clean effect c h) ≡ record (latest_of h) { current = none }
  clean-latest h none e = rw e refl
  clean-latest h (some m) e = refl

  begins-IsTracked :
      (deps : K) (h : Hook K S)
      → h.cleanup ≡ none
      → ((n : ℕ) → (ltb n h.asked && not (h.cancelled n)) ≡ false)
      → IsTracked (begins effect deps h)
  unfolding IsTracked
  begins-IsTracked deps h rests quiet n = elim (Bool-cases (effect.fetches deps)) [
    | inr no_fetch ↦ simp (no_fetch, rests, quiet n)
    | inl fetches ↦ elim (Bool-cases (n == h.asked)) [
      | inl newest ↦ rw fetches (ground (arith, newest))
      | inr older ↦ let still = quiet n in rw fetches (ground (arith, older, still))
    ]
  ]

  clean-rests : (h : Hook K S) (c : Option ℕ) → h.cleanup ≡ c → (clean effect c h).cleanup ≡ none
  clean-rests h none e = e
  clean-rests h (some m) e = refl

  clean-IsTracked : (h : Hook K S) → IsTracked h → IsTracked (clean effect h.cleanup h)
  unfolding IsTracked
  clean-IsTracked h tracked n =
      clean-quiet h h.cleanup n (tracked n)
      ∙ sym (ap (λ c. is_current c n) (clean-rests h h.cleanup refl))

  if-IsTracked :
      (b : Bool) (g h : Hook K S) → IsTracked g → IsTracked h → IsTracked (if b then g else h)
  if-IsTracked true g h hg hh = hg
  if-IsTracked false g h hg hh = hh

  step-IsTracked : (e : Event K S) (h : Hook K S) → IsTracked h → IsTracked (step effect e h)
  unfolding step render settle_fetch IsTracked
  step-IsTracked (renders deps) h tracked =
      let now = clean effect h.cleanup h in
      if-IsTracked (unchanged effect h.deps deps) h (begins effect deps now) tracked (
        begins-IsTracked deps now (clean-rests h h.cleanup refl)
          (λ n. clean-quiet h h.cleanup n (tracked n)))
  step-IsTracked (settles n answer) h tracked =
      if-IsTracked (ltb n h.asked && not (h.cancelled n))
        (record h { shown = settled effect answer h.shown }) h tracked tracked
  step-IsTracked unmounts h tracked = clean-IsTracked h tracked

  begins-latest :
      (deps : K) (h g : Hook K S)
      → latest_of g ≡ record (latest_of h) { current = none }
      → latest_of (begins effect deps g) ≡ (
          if effect.fetches deps
          then record (latest_of h) {
            deps = some deps;
            asked = suc h.asked;
            current = some h.asked;
          }
          else record (latest_of h) { deps = some deps; current = none })
  begins-latest deps h g e = elim (Bool-cases (effect.fetches deps)) [
    | inl fetches ↦ rw fetches (
        ap
          (λ (l : Latest K S). record l {
            deps = some deps;
            asked = suc l.asked;
            current = some l.asked;
          })
          e)
    | inr no_fetch ↦ rw no_fetch (ap (λ (l : Latest K S). record l { deps = some deps }) e)
  ]

  -- The code's step is the step of the hook without variables.
  step-latest :
      (e : Event K S) (h : Hook K S)
      → IsTracked h
      → latest_of (step effect e h) ≡ step_latest effect e (latest_of h)
  unfolding step render settle_fetch step_latest IsTracked
  step-latest (renders deps) h tracked = elim (Bool-cases (unchanged effect h.deps deps)) [
    | inl same ↦ rw same refl
    | inr new ↦
        rw new (begins-latest deps h (clean effect h.cleanup h) (clean-latest h h.cleanup refl))
  ]
  step-latest (settles n answer) h tracked =
      rw (tracked n) (elim (Bool-cases (is_current h.cleanup n)) [
        | inl current ↦ rw current refl
        | inr late ↦ rw late refl
      ])
  step-latest unmounts h tracked = clean-latest h h.cleanup refl

  -- From a hook whose live fetch is the one that React would clean up, as at first, and whatever is
  -- rendered and answered, in any order: what the hook shows is what a hook would show
  -- that keeps only the number of its latest fetch, and takes no answer but that fetch's.
  pub run-latest :
      (es : List (Event K S)) (h : Hook K S)
      → IsTracked h
      → latest_of (run effect es h) ≡ run_latest effect es (latest_of h)
  unfolding run run_latest
  run-latest [] h tracked = refl
  run-latest (e ∷ es) h tracked =
      run-latest es (step effect e h) (step-IsTracked e h tracked)
      ∙ ap (run_latest effect es) (step-latest e h tracked)
