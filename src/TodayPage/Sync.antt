-- ===== src/TodayPage/Sync.antt =====
-- Sending what waits: the second effect of frontend/src/app/trips/[trip_id]/today/page.tsx, while
-- the page is mounted. `post` is what the request for the newest item of a log throws, `none` if
-- it succeeds.
use travel_planner.Base.{
  ℕ, ltb, Bool, true, false, Option, none, some, List, [], ◌∷◌, length, if◌then◌else◌, Code, String,
}
use travel_planner.Api.{Failure}
use travel_planner.Queue.{QueuedCheckIn, CheckInStore, pending_check_ins, flush_check_ins}
use travel_planner.TodayPage.{Page}
pub mod Delivery

module _ (store : CheckInStore) (trip_id : String) (browser : Failure → Code)
    (post : List QueuedCheckIn → Option Failure) where
  -- `count`: the number of check-ins of this trip that wait.
  unfoldable pub count : Page store trip_id → ℕ × Page store trip_id
  count p =
      let n = length (pending_check_ins store (some trip_id) p.queue) in
      (n, record p { pending = n })

  -- What a sync posts, the latest first, and the page behind it.
  unfoldable pub sync :
      (online : Bool) → Page store trip_id → List QueuedCheckIn × Page store trip_id
  sync online p =
      let flushed = flush_check_ins store browser post p.queue in
      if online then (flushed.posted, (count (record p { queue = flushed.state })).1) else ([], p)

  -- `count().then((n) => n > 0 && sync())`, of the mount and of every tick of the timer.
  unfoldable pub tick :
      (online : Bool) → Page store trip_id → List QueuedCheckIn × Page store trip_id
  tick online p =
      let (n, counted) = count p in
      let synced = sync online counted in if ltb 0 n then synced else ([], counted)
