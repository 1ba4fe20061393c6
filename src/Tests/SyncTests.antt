-- ===== src/Tests/SyncTests.antt =====
-- A tap without a connection while two check-ins wait.
use travel_planner.Base.{ℕ, ◌+◌, ◌≡◌, refl, Bool, true, false, none, some, List, [], tally, to_ℕ}
use travel_planner.Queue.{QueuedCheckIn, arrived}
use travel_planner.TodayPage.{Page, item, check_in}
use travel_planner.TodayPage.Sync.{sync}
use travel_planner.TodayPage.Sync.Delivery.{sync-check_in}
use travel_planner.Tests.BoardTests.{board, stop}
use travel_planner.Tests.QueueTests.{list_store, queue, offline, queue-IsQueue}

abbrev on_the_road : Page list_store "t"
on_the_road = record { itinerary = some board; queue = queue; pending = 2; toasts = [] }

abbrev tapped : Page list_store "t"
tapped = check_in list_store "t" false none (stop "a") arrived "now" on_the_road

abbrev synced : List QueuedCheckIn × Page list_store "t"
synced = sync list_store "t" offline (λ log. none) true tapped

sync-check_in_example :
    ((n : ℕ) × ((q : QueuedCheckIn → Bool)
        → tally q synced.0
          ≡ tally q queue
            + to_ℕ (q (record (item list_store "t" "a" arrived "now") { id = some n }))))
    × (synced.1.queue ≡ [])
    × (synced.1.pending ≡ 0)
sync-check_in_example =
    sync-check_in list_store offline (λ log. none) (λ log. refl) "t" none (stop "a") arrived "now"
      on_the_road queue-IsQueue
