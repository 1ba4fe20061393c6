-- ===== src/Worker/Steps.antt =====
-- The sections of the service worker as a relation: frontend/public/sw.js.
use travel_planner.Base.{
  ◌≡◌, refl, Bool, true, false, Option-cases, inl, inr, List, [], ◌∷◌, ◌++◌, if◌then◌else◌, Code,
}
use travel_planner.Worker.{
  CacheName, CacheStorage, Flight, Job, Worker, network_first_begun, cache_first_begun,
  precache_begun, page_begun, asset_begun, fetched, fetch_failed, is_answer, Purpose, network_first,
  cache_first, precache, static_cache, pages_cache,
}

module _ {R : Type 0} (storage : CacheStorage R) where
  open storage use {State, next, named, open_cache, delete, put, match}

  -- A section of the worker other than the clearing of private data. `Fetched f r` says that the
  -- network may answer the fetch of `f` with `r`.
  pub data Step (Fetched : Flight → R → Type 0) (w : Worker storage) : Worker storage → Type 0 where
    asks_network :
        (name : CacheName) (url : Code) → Step Fetched w (network_first_begun storage name url w)
    asks_cache : (url : Code) → Step Fetched w (cache_first_begun storage url w)
    starts_job : (urls : List Code) → Step Fetched w (precache_begun storage urls w)
    asks_page :
        (before after : List Job) (j : Job)
        → w.jobs ≡ before ++ j ∷ after
        → Step Fetched w (page_begun storage before j after w)
    asks_asset :
        (before after : List Job) (j : Job) (asset : Code)
        → w.jobs ≡ before ++ j ∷ after
        → Step Fetched w (asset_begun storage j asset w)
    fetches :
        (before after : List Flight) (f : Flight) (ok : Bool) (r : R)
        → w.flights ≡ before ++ f ∷ after
        → Fetched f r
        → Step Fetched w (fetched storage before f after ok r w)
    fails :
        (before after : List Flight) (f : Flight)
        → w.flights ≡ before ++ f ∷ after
        → Step Fetched w (fetch_failed storage before f after w)

  pub data Run (Fetched : Flight → R → Type 0) (first : Worker storage)
      : Worker storage → Type 0 where
    here : Run Fetched first first
    then_step :
        {v w : Worker storage} → Run Fetched first v → Step Fetched v w → Run Fetched first w

  -- What every opening of a cache and every put of an answer keeps, the sections keep.
  module _ (Fetched : Flight → R → Type 0) (Kept : State → Type 0)
      (open_keeps : (name : CacheName) (s : State) → Kept s → Kept (open_cache name s).1)
      (put_keeps : (f : Flight) (r : R) (s : State)
        → Fetched f r
        → Kept s
        → Kept (put f.cache f.url r s)) where
    kept_either : (ok : Bool) (s t : State) → Kept s → Kept t → Kept (if ok then s else t)
    kept_either true s t hs ht = hs
    kept_either false s t hs ht = ht

    answers-keeps :
        (asked : Bool) (v w : Worker storage)
        → Kept v.caches
        → Kept w.caches
        → Kept (if asked then v else w).caches
    answers-keeps true v w hv hw = hv
    answers-keeps false v w hv hw = hw

    cache_first_begun-keeps :
        (url : Code) (w : Worker storage)
        → Kept w.caches
        → Kept (cache_first_begun storage url w).caches
    unfolding cache_first_begun
    cache_first_begun-keeps url w h =
        elim (Option-cases
          (match (open_cache static_cache w.caches).0 url (open_cache static_cache w.caches).1)) [
            | inl absent ↦ rw (absent, cache_first_begun) (open_keeps static_cache w.caches h)
            | inr (r, held) ↦ rw (held, cache_first_begun) (open_keeps static_cache w.caches h)
          ]

    page_begun-keeps :
        (before after : List Job) (j : Job) (urls : List Code) (w : Worker storage)
        → j.urls ≡ urls
        → Kept w.caches
        → Kept (page_begun storage before j after w).caches
    unfolding page_begun
    page_begun-keeps before after j [] w e h = rw e h
    page_begun-keeps before after j (url ∷ urls) w e h = rw e h

    asset_begun-keeps :
        (j : Job) (asset : Code) (w : Worker storage)
        → Kept w.caches
        → Kept (asset_begun storage j asset w).caches
    unfolding asset_begun
    asset_begun-keeps j asset w h = elim (Option-cases (match j.statics asset w.caches)) [
      | inl absent ↦ rw (absent, asset_begun) h
      | inr (r, held) ↦ rw (held, asset_begun) h
    ]

    fetch_failed-keeps :
        (before after : List Flight) (f : Flight) (purpose : Purpose) (w : Worker storage)
        → f.purpose ≡ purpose
        → Kept w.caches
        → Kept (fetch_failed storage before f after w).caches
    unfolding fetch_failed
    fetch_failed-keeps before after f network_first w e h = rw e h
    fetch_failed-keeps before after f cache_first w e h = rw e h
    fetch_failed-keeps before after f precache w e h = rw e h

    Step-keeps : {v w : Worker storage} → Step Fetched v w → Kept v.caches → Kept w.caches
    unfolding network_first_begun precache_begun fetched
    Step-keeps {v = v} (asks_network name url) h = open_keeps name v.caches h
    Step-keeps {v = v} (asks_cache url) h = cache_first_begun-keeps url v h
    Step-keeps {v = v} (starts_job urls) h =
        open_keeps static_cache (open_cache pages_cache v.caches).1
          (open_keeps pages_cache v.caches h)
    Step-keeps {v = v} (asks_page before after j e) h =
        page_begun-keeps before after j j.urls v refl h
    Step-keeps {v = v} (asks_asset before after j asset e) h = asset_begun-keeps j asset v h
    Step-keeps {v = v} (fetches before after f ok r e came) h =
        let stored =
          kept_either ok (put f.cache f.url r v.caches) v.caches (put_keeps f r v.caches came h)
            h in
        answers-keeps (is_answer f.purpose) _ _ stored stored
    Step-keeps {v = v} (fails before after f e) h =
        fetch_failed-keeps before after f f.purpose v refl h

    pub Run-keeps : {v w : Worker storage} → Run Fetched v w → Kept v.caches → Kept w.caches
    Run-keeps here h = h
    Run-keeps (then_step run step) h = Step-keeps step (Run-keeps run h)
