-- ===== src/Worker.antt =====
-- The service worker: frontend/public/sw.js.
-- A request is cut at its fetch: it opens its cache and is under way, and settles later. The Cache
-- Storage of the browser is the interface `CacheStorage`; a put is done at once. The time limit of
-- a fetch is a fetch that fails. `R` are responses.
use travel_planner.Base.{
  ℕ, suc, ◌==◌, ◌≡◌, ◌≢◌, ◌≤◌, ◌<◌, Bool, true, false, not, ◌&&◌, ◌||◌, Option, none, some, List,
  [], ◌∷◌, ◌++◌, if◌then◌else◌, Code, codes, code_eq, starts_with, any, String,
}
pub mod Steps
pub mod Routes
pub mod Offline
pub mod Privacy

pub data CacheName : Type 0 where
  static_cache api_cache pages_cache : CacheName

abbrev pub same_name : CacheName → CacheName → Bool
same_name static_cache static_cache = true
same_name api_cache api_cache = true
same_name pages_cache pages_cache = true
same_name _ _ = false

-- The caches of trip data and of pages.
abbrev pub is_private : CacheName → Bool
is_private static_cache = false
is_private _ = true

-- Caches are numbered in the order in which they come to be. One that is deleted under its name
-- stays usable by those who hold it.
pub record CacheStorage (R : Type 0) : Type 1 where
  pub State : Type 0
  pub next : State → ℕ
  pub named : CacheName → State → Option ℕ
  pub open_cache : CacheName → State → ℕ × State
  pub delete : CacheName → State → State
  pub put : ℕ → Code → R → State → State
  pub match : ℕ → Code → State → Option R
  pub open-named :
      (name : CacheName) (s : State) (h : ℕ) → named name s ≡ some h → open_cache name s ≡ (h, s)
  pub open-new :
      (name : CacheName) (s : State)
      → named name s ≡ none
      → ((open_cache name s).0 ≡ next s)
        × (next (open_cache name s).1 ≡ suc (next s))
        × ((other : CacheName)
            → named other (open_cache name s).1
              ≡ (if same_name other name then some (next s) else named other s))
        × ((h : ℕ) (url : Code)
            → match h url (open_cache name s).1 ≡ (if h == next s then none else match h url s))
  pub delete-named :
      (name : CacheName) (s : State)
      → ((other : CacheName)
          → named other (delete name s) ≡ (if same_name other name then none else named other s))
        × (next (delete name s) ≡ next s)
        × ((h : ℕ) (url : Code) → match h url (delete name s) ≡ match h url s)
  pub put-match :
      (h : ℕ) (url : Code) (r : R) (s : State)
      → ((name : CacheName) → named name (put h url r s) ≡ named name s)
        × (next (put h url r s) ≡ next s)
        × ((g : ℕ) (v : Code)
            → match g v (put h url r s)
              ≡ (if g == h then (if code_eq v url then some r else match g v s) else match g v s))

-- What a fetch under way is for: an answer with the cache as a fallback, an answer that the cache
-- did not have, or a copy for later.
pub data Purpose : Type 0 where
  network_first cache_first precache : Purpose

abbrev pub is_answer : Purpose → Bool
is_answer precache = false
is_answer _ = true

pub record Flight : Type 0 where
  pub purpose : Purpose
  pub cache : ℕ
  pub url : Code

-- A message "cache-pages" that is being served: its two caches and the pages that are left.
pub record Job : Type 0 where
  pub pages : ℕ
  pub statics : ℕ
  pub urls : List Code

-- An answer of the worker to the page: a response or an error.
pub record Answer (R : Type 0) : Type 0 where
  pub url : Code
  pub response : Option R

module _ {R : Type 0} (storage : CacheStorage R) where
  open storage use {State, next, named, open_cache, delete, put, match}

  pub record Worker : Type 0 where
    pub caches : State
    pub flights : List Flight
    pub jobs : List Job
    pub answers : List (Answer R)

  abbrev pub replied : Code → Option R → Worker → Worker
  replied url r w = record w { answers = record { url = url; response = r } ∷ w.answers }

  abbrev pub takes_off : Purpose → ℕ → Code → Worker → Worker
  takes_off purpose cache url w = record w {
    flights = w.flights ++ record { purpose = purpose; cache = cache; url = url } ∷ [];
  }

  -- `networkFirst` up to its fetch.
  unfoldable pub network_first_begun : CacheName → Code → Worker → Worker
  network_first_begun name url w =
      let (h, opened) = open_cache name w.caches in
      takes_off network_first h url (record w { caches = opened })

  -- `cacheFirst` up to its fetch, if it makes one.
  unfoldable pub cache_first_begun : Code → Worker → Worker
  cache_first_begun url w =
      let (h, opened) = open_cache static_cache w.caches in
      let here = record w { caches = opened } in
      elim (match h url opened) [
        | some r ↦ replied url (some r) here
        | none ↦ takes_off cache_first h url here
      ]

  -- `precachePages` opens both caches. Its rounds follow in their order; that a round waits for the
  -- one before is left out.
  unfoldable pub precache_begun : List Code → Worker → Worker
  precache_begun urls w =
      let (pages, opened) = open_cache pages_cache w.caches in
      let (statics, both) = open_cache static_cache opened in
      record w {
        caches = both;
        jobs = record { pages = pages; statics = statics; urls = urls } ∷ w.jobs;
      }

  -- The round of the next page.
  unfoldable pub page_begun : (before : List Job) (j : Job) (after : List Job) → Worker → Worker
  page_begun before j after w = elim j.urls [
    | [] ↦ w
    | url ∷ urls ↦
        takes_off precache j.pages url
          (record w { jobs = before ++ record j { urls = urls } ∷ after })
  ]

  -- An asset of a page that has arrived.
  unfoldable pub asset_begun : Job → Code → Worker → Worker
  asset_begun j asset w = elim (match j.statics asset w.caches) [
    | some r ↦ w
    | none ↦ takes_off precache j.statics asset w
  ]

  abbrev pub landed : List Flight → List Flight → Worker → Worker
  landed before after w = record w { flights = before ++ after }

  -- The fetch gives a response; `ok` is `response.ok`.
  unfoldable pub fetched :
      (before : List Flight) (f : Flight) (after : List Flight) (ok : Bool) (r : R)
      → Worker
      → Worker
  fetched before f after ok r w =
      let stored = record (landed before after w) {
        caches = if ok then put f.cache f.url r w.caches else w.caches;
      } in
      if is_answer f.purpose then replied f.url (some r) stored else stored

  -- The fetch fails or takes too long.
  unfoldable pub fetch_failed :
      (before : List Flight) (f : Flight) (after : List Flight) → Worker → Worker
  fetch_failed before f after w = elim f.purpose [
    | network_first ↦ replied f.url (match f.cache f.url w.caches) (landed before after w)
    | cache_first ↦ replied f.url none (landed before after w)
    | precache ↦ landed before after w
  ]

  -- The message "clear-private".
  unfoldable pub clear_private : Worker → Worker
  clear_private w = record w { caches = delete pages_cache (delete api_cache w.caches) }
