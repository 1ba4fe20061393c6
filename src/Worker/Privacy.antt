-- ===== src/Worker/Privacy.antt =====
-- Private data and sign-out.
use travel_planner.Base.{
  ℕ, ◌==◌, ◌≡◌, ◌≢◌, ◌≤◌, ◌<◌, sym, ◌∙◌, Bool, true, false, Option, none, some, if◌then◌else◌, Code,
  code_eq, arith, inl, inr, Bool-cases, Option-cases, ◌⊎◌,
}
use travel_planner.Worker.Steps.{Run, Run-keeps}
use travel_planner.Worker.{
  CacheName, is_private, same_name, static_cache, api_cache, pages_cache, CacheStorage, Flight,
  Worker, clear_private,
}

one_of :
    {A : Type 0} (b : Bool) (x y : Option A) (a : A)
    → (if b then x else y) ≡ some a
    → (x ≡ some a) ⊎ (y ≡ some a)
one_of true x y a e = inl e
one_of false x y a e = inr e

module _ {R : Type 0} (storage : CacheStorage R) where
  open storage use {State, next, named, open_cache, delete, put, match}

  -- Since the clearing, at which `n` caches had been: the private caches are new or not there, and a
  -- new cache holds what was fetched for a new cache.
  record IsCleared (Fetched : Flight → R → Type 0) (n : ℕ) (s : State) : Type 0 where
    grows : n ≤ next s
    fresh : (name : CacheName) (h : ℕ) → is_private name ≡ true → named name s ≡ some h → n ≤ h
    holds :
        (h : ℕ) (url : Code) (r : R)
        → n ≤ h
        → match h url s ≡ some r
        → (f : Flight) × (n ≤ f.cache) × Fetched f r

  module _ (Fetched : Flight → R → Type 0) (n : ℕ) where
    -- A private cache that is opened now is new.
    opened_new :
        (name : CacheName) (s : State)
        → is_private name ≡ true
        → IsCleared Fetched n s
        → n ≤ (open_cache name s).0
    opened_new name s secret h = elim (Option-cases (named name s)) [
      | inl absent ↦
          let (new, counted, names, holds) = storage.open-new name s absent in
          omega (arith, new, h.grows)
      | inr (g, present) ↦ rw (storage.open-named name s g present) (h.fresh name g secret present)
    ]

    open-IsCleared :
        (name : CacheName) (s : State)
        → IsCleared Fetched n s
        → IsCleared Fetched n (open_cache name s).1
    open-IsCleared name s h = elim (Option-cases (named name s)) [
      | inr (g, present) ↦ rw (storage.open-named name s g present) h
      | inl absent ↦
          let (new, counted, names, holds) = storage.open-new name s absent in
          record {
            grows = omega (arith, counted, h.grows);
            fresh = λ other k secret e.
                elim (one_of (same_name other name) (some (next s)) (named other s) k
                  (rw (names other) at e)) [
                    | inl created ↦ let same : next s ≡ k = cc in omega (arith, same, h.grows)
                    | inr held ↦ h.fresh other k secret held
                  ];
            holds = λ k url r at_least e.
                elim (one_of (k == next s) none (match k url s) r (rw (holds k url) at e)) [
                  | inl empty ↦ absurd (cc)
                  | inr held ↦ h.holds k url r at_least held
                ];
          }
    ]

    put_held :
        (f : Flight) (r : R) (s : State)
        → Fetched f r
        → IsCleared Fetched n s
        → (k : ℕ) (url : Code) (q : R) → n ≤ k
        → (if k == f.cache
            then (if code_eq url f.url then some r else match k url s)
            else match k url s)
          ≡ some q
        → (g : Flight) × (n ≤ g.cache) × Fetched g q
    put_held f r s came h k url q at_least e = elim (Bool-cases (k == f.cache)) [
      | inr elsewhere ↦ h.holds k url q at_least (rw elsewhere at e)
      | inl there ↦ elim (one_of (code_eq url f.url) (some r) (match k url s) q (rw there at e)) [
        | inl put_now ↦
            let same : r ≡ q = cc in (f, ground (arith, there, at_least), rw same at came)
        | inr held ↦ h.holds k url q at_least held
      ]
    ]

    put-IsCleared :
        (f : Flight) (r : R) (s : State)
        → Fetched f r
        → IsCleared Fetched n s
        → IsCleared Fetched n (put f.cache f.url r s)
    put-IsCleared f r s came h =
        let (names, counted, holds) = storage.put-match f.cache f.url r s in
        record {
          grows = omega (arith, counted, h.grows);
          fresh = λ other k secret e. h.fresh other k secret (rw (names other) at e);
          holds =
              λ k url q at_least e. put_held f r s came h k url q at_least (rw (holds k url) at e);
        }

    Run-IsCleared :
        {v w : Worker storage}
        → Run storage Fetched v w
        → IsCleared Fetched n v.caches
        → IsCleared Fetched n w.caches
    Run-IsCleared run h =
        Run-keeps storage Fetched (IsCleared Fetched n) open-IsCleared put-IsCleared run h

  -- Only caches that were opened hold responses.
  unfoldable pub IsOpened : State → Type 0
  IsOpened s = (h : ℕ) (url : Code) (r : R) → match h url s ≡ some r → h < next s

  deleted_fresh :
      (s : State) (name : CacheName) (h : ℕ)
      → is_private name ≡ true
      → named name (delete pages_cache (delete api_cache s)) ≢ some h
  deleted_fresh s static_cache h secret e = absurd (cc)
  deleted_fresh s api_cache h secret e =
      let (names, more, holds) = storage.delete-named api_cache s in
      let (names', more', holds') = storage.delete-named pages_cache (delete api_cache s) in
      let gone : none ≡ some h = sym (names api_cache) ∙ sym (names' api_cache) ∙ e in absurd (cc)
  deleted_fresh s pages_cache h secret e =
      let (names', more', holds') = storage.delete-named pages_cache (delete api_cache s) in
      let gone : none ≡ some h = sym (names' pages_cache) ∙ e in absurd (cc)

  deleted :
      (Fetched : Flight → R → Type 0) (s : State)
      → IsOpened s
      → IsCleared Fetched (next s) (delete pages_cache (delete api_cache s))
  unfolding IsOpened
  deleted Fetched s opened =
      let (names, counted, holds) = storage.delete-named api_cache s in
      let (names', counted', holds') = storage.delete-named pages_cache (delete api_cache s) in
      record {
        grows = omega (arith, counted, counted');
        fresh = λ name k secret e. absurd (deleted_fresh s name k secret e);
        holds = λ k url r at_least e.
            let low = opened k url r (sym (holds k url) ∙ sym (holds' k url) ∙ e) in
            absurd (omega (arith, low, at_least));
      }

  -- If only caches that were opened hold responses: after private data is cleared, and any sections
  -- of the worker behind that, for requests that are under way or new, all that a private cache has
  -- for an address was fetched for a cache that came to be after the clearing.
  pub run-private :
      (Fetched : Flight → R → Type 0) (w v : Worker storage)
      → IsOpened w.caches
      → Run storage Fetched (clear_private storage w) v
      → (name : CacheName) (url : Code) (r : R) → is_private name ≡ true
      → match (open_cache name v.caches).0 url (open_cache name v.caches).1 ≡ some r
      → (f : Flight) × (next w.caches ≤ f.cache) × Fetched f r
  unfolding clear_private
  run-private Fetched w v opened run name url r secret e =
      let cleared = Run-IsCleared Fetched (next w.caches) run (deleted Fetched w.caches opened) in
      (open-IsCleared Fetched (next w.caches) name v.caches cleared).holds
        (open_cache name v.caches).0 url r
        (opened_new Fetched (next w.caches) name v.caches secret cleared) e
