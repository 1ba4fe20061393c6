-- ===== src/Worker/Routes.antt =====
-- The routes of the service worker (frontend/public/sw.js) and what "Save for offline" asks for
-- (frontend/src/lib/offline.ts). A request of `api.get` goes to "/api" and its path.
use travel_planner.Base.{
  ℕ, ◌≡◌, ◌≢◌, refl, Bool, true, false, not, ◌&&◌, ◌||◌, ◌==◌, Option, none, some, List, [], ◌∷◌,
  ◌++◌, if◌then◌else◌, Code, codes, code_eq, strip, starts_with, any, All,
}
use travel_planner.Api.Paths.{is_empty}
use travel_planner.Worker.{
  CacheName, api_cache, pages_cache, CacheStorage, Worker, network_first_begun, cache_first_begun,
}

pub record Request : Type 0 where
  pub is_get : Bool
  pub is_same_origin : Bool
  pub is_navigation : Bool
  pub pathname : Code

-- `[^/]+` takes all up to the next "/", code unit 47, and leaves the rest.
unfoldable pub segment : Code → Code × Code
segment [] = ([], [])
segment (c ∷ cs) =
    let (taken, left) = segment cs in if c == 47 then ([], c ∷ cs) else (c ∷ taken, left)

abbrev pub data_suffixes : List Code
data_suffixes =
    codes "/itinerary"
    ∷ codes "/weather"
    ∷ codes "/navigation"
    ∷ codes "/recap"
    ∷ codes "/photos"
    ∷ codes "/budget"
    ∷ codes "/expenses"
    ∷ codes "/packing"
    ∷ []

-- `TRIP_DATA.test(pathname)`
abbrev pub is_trip_data : Code → Bool
is_trip_data path = elim (strip (codes "/api/trips/") path) [
  | none ↦ false
  | some rest ↦
      not (is_empty (segment rest).0)
      && (is_empty (segment rest).1 || any (code_eq (segment rest).1) data_suffixes)
]

-- `STATIC_ASSET.test(pathname)`
abbrev pub is_static_asset : Code → Bool
is_static_asset path =
    any (starts_with path)
      (codes "/_next/static/" ∷ codes "/icon-" ∷ codes "/apple-touch-icon" ∷ [])

pub data Route : Type 0 where
  untouched from_cache : Route
  from_network : CacheName → Route

unfoldable pub route : Request → Route
route request =
    if not request.is_get || not request.is_same_origin
    then untouched
    else if is_static_asset request.pathname
    then from_cache
    else if is_trip_data request.pathname
    then from_network api_cache
    else if request.is_navigation && starts_with request.pathname (codes "/trips")
    then from_network pages_cache
    else untouched

-- The event "fetch"; `url` is the address of the request.
unfoldable pub on_fetch :
    {R : Type 0} (storage : CacheStorage R)
    → Request
    → (url : Code) → Worker storage
    → Worker storage
on_fetch storage request url w = elim (route request) [
  | untouched ↦ w
  | from_cache ↦ cache_first_begun storage url w
  | from_network name ↦ network_first_begun storage name url w
]

-- A request of `api.get`, and a page that the browser opens.
abbrev pub api_get : Code → Request
api_get path = record {
  is_get = true;
  is_same_origin = true;
  is_navigation = false;
  pathname = codes "/api" ++ path;
}

abbrev pub opened_page : Code → Request
opened_page path = record {
  is_get = true;
  is_same_origin = true;
  is_navigation = true;
  pathname = path;
}

-- The paths that `saveTripForOffline` gets, in their order.
abbrev pub saved_paths : Code → List Code
saved_paths trip_id =
    let base = codes "/trips/" ++ trip_id in
    base
    ∷ (base ++ codes "/itinerary")
    ∷ (base ++ codes "/weather")
    ∷ (base ++ codes "/navigation")
    ∷ (base ++ codes "/expenses")
    ∷ (base ++ codes "/photos")
    ∷ []

abbrev pub saved_pages : Code → List Code
saved_pages trip_id =
    (codes "/trips/" ++ trip_id)
    ∷ (codes "/trips/" ++ trip_id ++ codes "/today")
    ∷ (codes "/trips/" ++ trip_id ++ codes "/itinerary")
    ∷ codes "/trips"
    ∷ []

-- What `saveTripForOffline` does after its requests: the pages that it posts to the worker, if any.
-- `arrived` says which requests gave an answer.
unfoldable pub save_trip_for_offline :
    (has_worker : Bool) (trip_id : Code) (arrived : List Bool) → Option (List Code)
save_trip_for_offline false trip_id arrived = none
save_trip_for_offline true trip_id (true ∷ true ∷ rest) = some (saved_pages trip_id)
save_trip_for_offline true trip_id _ = none

segment_lem :
    (id tail : Code)
    → All (λ c. (c == 47) ≡ false) id
    → segment tail ≡ ([], tail)
    → segment (id ++ tail) ≡ (id, tail)
unfolding segment
segment_lem [] tail h ends = ends
segment_lem (c ∷ cs) tail (plain, h) ends = rw (segment_lem cs tail h ends, plain) refl

data_routed :
    (rest id tail : Code) (c : ℕ)
    → segment rest ≡ (c ∷ id, tail)
    → (is_empty tail || any (code_eq tail) data_suffixes) ≡ true
    → route (api_get (codes "/trips/" ++ rest)) ≡ from_network api_cache
unfolding route
data_routed rest id tail c e known = rw (e, known) refl

segment-whole : (id : Code) → All (λ c. (c == 47) ≡ false) id → segment id ≡ (id, [])
unfolding segment
segment-whole [] h = refl
segment-whole (c ∷ cs) (plain, h) = rw (segment-whole cs h, plain) refl

-- For a trip id that is not empty and has no "/": "Save for offline" asks only for data that the
-- worker keeps in the cache of trip data, and the pages that it posts are pages that the worker
-- later serves from the cache of pages.
pub save_trip-routed :
    (id : Code)
    → id ≢ []
    → All (λ c. (c == 47) ≡ false) id
    → All (λ path. route (api_get path) ≡ from_network api_cache) (saved_paths id)
      × All (λ page. route (opened_page page) ≡ from_network pages_cache) (saved_pages id)
unfolding route segment code_eq
save_trip-routed [] some_id plain = absurd (some_id refl)
save_trip-routed (c ∷ cs) some_id plain =
    let kept : (tail : Code)
        → segment tail ≡ ([], tail)
        → (is_empty tail || any (code_eq tail) data_suffixes) ≡ true
        → route (api_get (codes "/trips/" ++ (c ∷ cs) ++ tail)) ≡ from_network api_cache =
      λ tail ends known.
        data_routed ((c ∷ cs) ++ tail) cs tail c (segment_lem (c ∷ cs) tail plain ends) known in
    (
      (
        data_routed (c ∷ cs) cs [] c (segment-whole (c ∷ cs) plain) refl,
        (
          kept (codes "/itinerary") refl refl,
          (
            kept (codes "/weather") refl refl,
            (
              kept (codes "/navigation") refl refl,
              (kept (codes "/expenses") refl refl, (kept (codes "/photos") refl refl, tt)),
            ),
          ),
        ),
      ),
      (refl, (refl, (refl, (refl, tt)))),
    )
