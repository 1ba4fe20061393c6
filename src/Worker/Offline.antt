-- ===== src/Worker/Offline.antt =====
-- Saved data without a connection: frontend/public/sw.js.
use travel_planner.Base.{
  ℕ, ◌==◌, ◌≡◌, ◌<◌, refl, ap, ◌∙◌, Bool, true, false, Option, none, some, List, [], ◌∷◌, ◌++◌,
  if◌then◌else◌, Code, code_eq, code_eq_self, arith, inl, inr, Option-cases,
}
use travel_planner.Worker.Steps.{Run, Run-keeps}
use travel_planner.Worker.Routes.{Request, route, on_fetch, from_network}
use travel_planner.Worker.{
  CacheName, same_name, static_cache, api_cache, pages_cache, CacheStorage, Flight, Worker,
  takes_off, network_first_begun, fetched, fetch_failed, is_answer, network_first,
}

module _ {R : Type 0} (storage : CacheStorage R) where
  open storage use {State, next, named, open_cache, delete, put, match}

  -- The cache under `name` has a response for `url`.
  pub record IsKept (name : CacheName) (h : ℕ) (url : Code) (s : State) : Type 0 where
    pub is_named : named name s ≡ some h
    pub is_opened : h < next s
    pub is_held : (r : R) × (match h url s ≡ some r)

  other_name :
      (name other : CacheName) (s : State) (h : ℕ) {t : Option ℕ}
      → named name s ≡ some h
      → named other s ≡ none
      → t ≡ (if same_name name other then some (next s) else named name s)
      → t ≡ some h
  other_name static_cache static_cache s h present absent e = absurd (cc)
  other_name api_cache api_cache s h present absent e = absurd (cc)
  other_name pages_cache pages_cache s h present absent e = absurd (cc)
  other_name static_cache api_cache s h present absent e = e ∙ present
  other_name static_cache pages_cache s h present absent e = e ∙ present
  other_name api_cache static_cache s h present absent e = e ∙ present
  other_name api_cache pages_cache s h present absent e = e ∙ present
  other_name pages_cache static_cache s h present absent e = e ∙ present
  other_name pages_cache api_cache s h present absent e = e ∙ present

  put_held :
      (same_cache same_url : Bool) (q r : R) (old : Option R)
      → old ≡ some r
      → (p : R) × ((if same_cache then (if same_url then some q else old) else old) ≡ some p)
  put_held true true q r old e = (q, refl)
  put_held true false q r old e = (r, e)
  put_held false same_url q r old e = (r, e)

  module _ (name : CacheName) (h : ℕ) (url : Code) where
    open-IsKept :
        (other : CacheName) (s : State)
        → IsKept name h url s
        → IsKept name h url (open_cache other s).1
    open-IsKept other s kept = elim (Option-cases (named other s)) [
      | inr (g, present) ↦ rw (storage.open-named other s g present) kept
      | inl absent ↦
          let (new, counted, names, holds) = storage.open-new other s absent in
          let (r, held) = kept.is_held in
          record {
            is_named = other_name name other s h kept.is_named absent (names name);
            is_opened = let low = kept.is_opened in omega (arith, counted, low);
            is_held = (r, let low = kept.is_opened in rw (holds h url) (ground (arith, held, low)));
          }
    ]

    put-IsKept :
        (g : ℕ) (v : Code) (q : R) (s : State)
        → IsKept name h url s
        → IsKept name h url (put g v q s)
    put-IsKept g v q s kept =
        let (names, counted, holds) = storage.put-match g v q s in
        let (r, held) = kept.is_held in
        record {
          is_named = names name ∙ kept.is_named;
          is_opened = let low = kept.is_opened in omega (arith, counted, low);
          is_held = rw (holds h url) (put_held (h == g) (code_eq url v) q r (match h url s) held);
        }

  same_caches :
      (asked : Bool) (s : State) (v w : Worker storage)
      → v.caches ≡ s
      → w.caches ≡ s
      → (if asked then v else w).caches ≡ s
  same_caches true s v w hv hw = hv
  same_caches false s v w hv hw = hw

  fetched-put :
      (before after : List Flight) (f : Flight) (r : R) (w : Worker storage)
      → (fetched storage before f after true r w).caches ≡ put f.cache f.url r w.caches
  unfolding fetched
  fetched-put before after f r w = same_caches (is_answer f.purpose) _ _ _ refl refl

  fetched-IsKept :
      (name : CacheName) (before after : List Flight) (f : Flight) (r : R) (w : Worker storage)
      → named name w.caches ≡ some f.cache
      → f.cache < next w.caches
      → IsKept name f.cache f.url (fetched storage before f after true r w).caches
  fetched-IsKept name before after f r w present low =
      let (names, counted, holds) = storage.put-match f.cache f.url r w.caches in
      rw (fetched-put before after f r w) (record {
        is_named = names name ∙ present;
        is_opened = omega (arith, counted, low);
        is_held = (r, rw (holds f.cache f.url, code_eq_self f.url) (ground arith));
      })

  on_fetch-begun :
      (name : CacheName) (h : ℕ) (request : Request) (url : Code) (v : Worker storage)
      → route request ≡ from_network name
      → named name v.caches ≡ some h
      → on_fetch storage request url v ≡ takes_off storage network_first h url v
  unfolding on_fetch network_first_begun
  on_fetch-begun name h request url v routed present =
      rw (routed, on_fetch, network_first_begun, storage.open-named name v.caches h present) refl

  fetch_failed-held :
      (before after : List Flight) (h : ℕ) (url : Code) (p : R) (w : Worker storage)
      → match h url w.caches ≡ some p
      → (fetch_failed storage before
          (record { purpose = network_first; cache = h; url = url })
          after
          w).answers
        ≡ record { url = url; response = some p } ∷ w.answers
  unfolding fetch_failed
  fetch_failed-held before after h url p w held =
      ap (λ response. record { url = url; response = response } ∷ w.answers) held

  -- A fetch for the cache that stands under a name, and that was opened, gives a response that is ok.
  -- Then, after any sections of the worker but a clearing, a request for the same address that is
  -- routed to the cache of that name makes one fetch, and if that fails, it is answered all the same,
  -- with a response.
  pub on_fetch-served :
      (Fetched : Flight → R → Type 0) (name : CacheName) (request : Request)
      → (before after : List Flight) (f : Flight) (r : R) (w v : Worker storage)
      → route request ≡ from_network name
      → named name w.caches ≡ some f.cache
      → f.cache < next w.caches
      → Run storage Fetched (fetched storage before f after true r w) v
      → let asked = on_fetch storage request f.url v in
        let again : Flight = record { purpose = network_first; cache = f.cache; url = f.url } in
        (asked.flights ≡ v.flights ++ again ∷ [])
        × ((p : R) × ((fetch_failed storage v.flights again [] asked).answers
              ≡ record { url = f.url; response = some p } ∷ v.answers))
  on_fetch-served Fetched name request before after f r w v routed present low run =
      let kept =
        Run-keeps storage Fetched (IsKept name f.cache f.url) (open-IsKept name f.cache f.url)
          (λ g q s came. put-IsKept name f.cache f.url g.cache g.url q s) run
          (fetched-IsKept name before after f r w present low) in
      let (p, held) = kept.is_held in
      rw (on_fetch-begun name f.cache request f.url v routed kept.is_named) (
        refl,
        (
          p,
          fetch_failed-held v.flights [] f.cache f.url p
              (takes_off storage network_first f.cache f.url v) held,
        ),
      )
