-- ===== src/Fetching.antt =====
-- Effects that fetch and ignore late answers: `useTripResource` of frontend/src/hooks/useTripExtras.ts,
-- and the first effects of frontend/src/hooks/useVotes.ts and frontend/src/hooks/useCommentCounts.ts.
-- The n-th run of the effect that fetches has its own variable `cancelled`, which the model keeps at
-- n. `K` are the dependencies, `S` is the state that the effect sets.
use travel_planner.Base.{
  ℕ, suc, ◌==◌, ltb, String, Bool, true, false, not, ◌&&◌, Option, none, some, is_some, List, [],
  ◌∷◌, if◌then◌else◌, str_eq,
}
pub mod Latest

pub record Hook (K S : Type 0) : Type 0 where
  pub deps : Option K
  pub asked : ℕ
  pub cancelled : ℕ → Bool
  -- The run whose cleanup React will call.
  pub cleanup : Option ℕ
  pub shown : S

pub data Event (K S : Type 0) : Type 0 where
  renders : K → Event K S
  -- The answer to the n-th fetch, or its failure.
  settles : ℕ → Option S → Event K S
  unmounts : Event K S

-- What differs between the hooks: when dependencies asked as the same, whether the effect fetches,
-- and what a failure makes of the state.
pub record Effect (K S : Type 0) : Type 0 where
  pub same : K → K → Bool
  pub fetches : K → Bool
  pub on_failure : S → S

module _ {K S : Type 0} (effect : Effect K S) where
  abbrev pub clean : Option ℕ → Hook K S → Hook K S
  clean none h = h
  clean (some m) h = record h {
    cancelled = λ n. if n == m then true else h.cancelled n;
    cleanup = none;
  }

  abbrev pub unchanged : Option K → K → Bool
  unchanged none deps = false
  unchanged (some old) deps = effect.same old deps

  -- A run of the effect.
  abbrev pub begins : K → Hook K S → Hook K S
  begins deps h =
      if effect.fetches deps
      then record h {
        deps = some deps;
        asked = suc h.asked;
        cancelled = λ n. if n == h.asked then false else h.cancelled n;
        cleanup = some h.asked;
      }
      else record h { deps = some deps }

  unfoldable pub render : K → Hook K S → Hook K S
  render deps h = if unchanged h.deps deps then h else begins deps (clean h.cleanup h)

  abbrev pub settled : Option S → S → S
  settled none old = effect.on_failure old
  settled (some value) old = value

  unfoldable pub settle_fetch : ℕ → Option S → Hook K S → Hook K S
  settle_fetch n answer h =
      if ltb n h.asked && not (h.cancelled n)
      then record h { shown = settled answer h.shown }
      else h

  unfoldable pub step : Event K S → Hook K S → Hook K S
  unfolding render settle_fetch
  step (renders deps) h = render deps h
  step (settles n answer) h = settle_fetch n answer h
  step unmounts h = clean h.cleanup h

  unfoldable pub run : List (Event K S) → Hook K S → Hook K S
  unfolding step
  run [] h = h
  run (e ∷ es) h = run es (step e h)

-- The path of the resource and the signature of `useTripResource`.
pub record Resource : Type 0 where
  pub path : Option String
  pub signature : String

abbrev pub same_path : Option String → Option String → Bool
same_path none none = true
same_path (some p) (some q) = str_eq p q
same_path _ _ = false

abbrev pub use_trip_resource : {T : Type 0} → Effect Resource (Option T)
use_trip_resource = record {
  same = λ old deps. same_path old.path deps.path && str_eq old.signature deps.signature;
  fetches = λ deps. is_some deps.path;
  on_failure = λ old. none;
}

-- `useVotes` and `useCommentCounts`: the rest of the dependencies, as a text, and `enabled`.
pub record Switched : Type 0 where
  pub key : String
  pub enabled : Bool

abbrev pub use_enabled : {S : Type 0} → Effect Switched S
use_enabled = record {
  same = λ old deps.
      str_eq old.key deps.key && (if old.enabled then deps.enabled else not deps.enabled);
  fetches = λ deps. deps.enabled;
  on_failure = λ old. old;
}
