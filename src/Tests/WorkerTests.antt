-- ===== src/Tests/WorkerTests.antt =====
-- Runs of the service worker on a storage of functions.
use travel_planner.Base.{
  ℕ, suc, ◌==◌, ◌≡◌, ◌≤◌, refl, true, Option, none, some, [], ◌∷◌, if◌then◌else◌, All, Code,
  code_eq, codes, arith,
}
use travel_planner.Worker.{
  CacheName, same_name, api_cache, pages_cache, CacheStorage, Flight, network_first, Worker,
  network_first_begun, fetched, fetch_failed, clear_private,
}
use travel_planner.Worker.Steps.{Run, here, then_step, asks_network, fetches}
use travel_planner.Worker.Routes.{
  api_get, opened_page, route, on_fetch, from_network, saved_paths, saved_pages, save_trip-routed,
  segment,
}
use travel_planner.Worker.Privacy.{run-private, IsOpened}
use travel_planner.Worker.Offline.{on_fetch-served}

record Shelf : Type 0 where
  next : ℕ
  named : CacheName → Option ℕ
  held : ℕ → Code → Option ℕ

unfoldable shelf_opened : CacheName → Shelf → Option ℕ → ℕ × Shelf
shelf_opened name s (some h) = (h, s)
shelf_opened name s none = (
  s.next,
  record {
    next = suc s.next;
    named = λ other. if same_name other name then some s.next else s.named other;
    held = λ h url. if h == s.next then none else s.held h url;
  },
)

shelf_opened-named :
    (name : CacheName) (s : Shelf) (h : ℕ)
    → s.named name ≡ some h
    → shelf_opened name s (s.named name) ≡ (h, s)
unfolding shelf_opened
shelf_opened-named name s h e = rw e refl

shelf_opened-new :
    (name : CacheName) (s : Shelf) (n : ℕ)
    → s.named name ≡ none
    → s.next ≡ n
    → let now = shelf_opened name s (s.named name) in
      (now.0 ≡ n)
      × (now.1.next ≡ suc n)
      × ((other : CacheName)
          → now.1.named other ≡ (if same_name other name then some n else s.named other))
      × ((h : ℕ) (url : Code) → now.1.held h url ≡ (if h == n then none else s.held h url))
unfolding shelf_opened
shelf_opened-new name s n e count = rw (e, count) (refl, refl, (λ other. refl), (λ h url. refl))

abbrev shelves : CacheStorage ℕ
shelves = record {
  State = Shelf;
  next = λ s. s.next;
  named = λ name s. s.named name;
  open_cache = λ name s. shelf_opened name s (s.named name);
  delete =
      λ name s. record s { named = λ other. if same_name other name then none else s.named other };
  put = λ h url r s. record s {
    held = λ g v. if g == h then (if code_eq v url then some r else s.held g v) else s.held g v;
  };
  match = λ h url s. s.held h url;
  open-named = shelf_opened-named;
  open-new = λ name s e. shelf_opened-new name s s.next e refl;
  delete-named = λ name s. ((λ other. refl), refl, (λ h url. refl));
  put-match = λ h url r s. ((λ name. refl), refl, (λ g v. refl));
}

-- The first user's trip is in cache 0, and a request for it is under way.
abbrev itinerary : Flight
itinerary = record { purpose = network_first; cache = 0; url = codes "/api/trips/a/itinerary" }

abbrev used : Worker shelves
used = record {
  caches = record {
    next = 1;
    named = λ name. if same_name name api_cache then some 0 else none;
    held = λ h url. if h == 0 then (if code_eq url itinerary.url then some 1 else none) else none;
  };
  flights = itinerary ∷ [];
  jobs = [];
  answers = [];
}

-- The number of a response tells who was signed in.
Belongs : Flight → ℕ → Type 0
Belongs f r = r ≡ suc f.cache

abbrev later : Flight
later = record itinerary { cache = 1 }

used-IsOpened : IsOpened shelves used.caches
unfolding IsOpened
used-IsOpened h url r e = ground (arith, e)

abbrev seen : Worker shelves
seen = fetched shelves [] later [] true 2 (
    network_first_begun shelves api_cache later.url
      (fetched shelves [] itinerary [] true 1 (clear_private shelves used)))

seen-Run : Run shelves Belongs (clear_private shelves used) seen
unfolding clear_private fetched network_first_begun Belongs shelf_opened
seen-Run =
    then_step
      (then_step (then_step here (fetches [] [] itinerary true 1 refl refl))
        (asks_network api_cache later.url))
      (fetches [] [] later true 2 refl refl)

run-private_example : (f : Flight) × (1 ≤ f.cache) × Belongs f 2
unfolding clear_private fetched network_first_begun shelf_opened code_eq
run-private_example =
    run-private shelves Belongs used seen used-IsOpened seen-Run api_cache itinerary.url 2 refl refl

save_trip-routed_example :
    All (λ path. route (api_get path) ≡ from_network api_cache) (saved_paths (codes "4e1"))
    × All (λ page. route (opened_page page) ≡ from_network pages_cache) (saved_pages (codes "4e1"))
save_trip-routed_example =
    save_trip-routed (codes "4e1") (λ e. absurd (cc)) (refl, (refl, (refl, tt)))

-- The trip comes without a connection.

on_fetch-served_example :
    let v = fetched shelves [] itinerary [] true 1 used in
    let asked = on_fetch shelves (api_get (codes "/trips/a/itinerary")) itinerary.url v in
    (asked.flights ≡ itinerary ∷ [])
    × ((p : ℕ) × ((fetch_failed shelves [] itinerary [] asked).answers
          ≡ record { url = itinerary.url; response = some p } ∷ v.answers))
unfolding fetched route segment code_eq
on_fetch-served_example =
    on_fetch-served shelves Belongs api_cache (api_get (codes "/trips/a/itinerary")) [] [] itinerary
      1 used (fetched shelves [] itinerary [] true 1 used) refl refl (omega arith) here
