-- ===== src/Tests/QueueTests.antt =====
-- A queue of two check-ins, over a store that is a list.
use travel_planner.Base.{
  ℕ, ◌+◌, ◌≤◌, ◌<◌, ◌≡◌, refl, Bool, not, Option, none, some, List, [], ◌∷◌, ◌++◌, keep, All, arith,
  tally, Code, codes,
}
use travel_planner.Api.{Failure, network, conflict}
use travel_planner.Api.Message.{message}
use travel_planner.Queue.{
  QueuedCheckIn, arrived, key, has_id, CheckInStore, is_api_4xx, flush_check_ins, sort_by_key,
}
use travel_planner.Queue.Replay.{IsQueue, left_over, flush_check_ins-keeps}
use travel_planner.Queue.Order.{IsAscending, in_order, flush_check_ins-in_order}
use travel_planner.Queue.Final.{flush_check_ins-loses}

-- The next key is one above the sum of those in use.
abbrev fresh : List QueuedCheckIn → ℕ
fresh [] = 1
fresh (i ∷ is) = key i + fresh is

pub below_fresh : (n : ℕ) (is : List QueuedCheckIn) → fresh is ≤ n → All (λ i. key i < n) is
below_fresh n [] h = tt
below_fresh n (i ∷ is) h = (above i is h, below_fresh n is (omega arith))
  where
    positive : (is : List QueuedCheckIn) → 1 ≤ fresh is
    positive [] = omega arith
    positive (j ∷ js) = omega (arith, positive js)

    above : (i : QueuedCheckIn) (is : List QueuedCheckIn) → key i + fresh is ≤ n → key i < n
    above i is h = omega (arith, positive is)

abbrev pub list_store : CheckInStore
list_store = record {
  State = List QueuedCheckIn;
  add = λ item s. s ++ record item { id = some (fresh s) } ∷ [];
  get_all = λ s. s;
  delete = λ n s. keep (λ i. not (has_id n i)) s;
  get_all-add = λ item s. (fresh s, refl, below_fresh (fresh s) s (omega arith));
  get_all-delete = λ n s. refl;
}

abbrev check_in : ℕ → QueuedCheckIn
check_in n = record { id = some n; trip_id = "t"; waypoint_id = "w"; action = arrived; at = "now" }

abbrev pub queue : List QueuedCheckIn
queue = check_in 2 ∷ check_in 1 ∷ []

pub queue-IsQueue : IsQueue queue
queue-IsQueue = record { keyed = (refl, (refl, tt)); unique = λ n. ground arith }

abbrev pub offline : Failure → Code
offline f = codes "Failed to fetch"

-- The second request fails without a connection.
abbrev drops_out : List QueuedCheckIn → Option Failure
drops_out (i ∷ []) = none
drops_out _ = some network

flush_test :
    ((flush_check_ins list_store offline drops_out queue).state ≡ check_in 2 ∷ [])
    × ((flush_check_ins list_store offline drops_out queue).sent ≡ 1)
unfolding flush_check_ins message is_api_4xx sort_by_key
flush_test = (refl, refl)

flush_check_ins-keeps_example :
    tally (has_id 2) (flush_check_ins list_store offline drops_out queue).state
    ≡ tally (has_id 2) (left_over list_store offline drops_out [] (sort_by_key queue))
flush_check_ins-keeps_example =
    flush_check_ins-keeps list_store offline drops_out queue (has_id 2) queue-IsQueue

flush_check_ins-in_order_example :
    IsAscending (sort_by_key queue)
    × ((unsent : List QueuedCheckIn) × (in_order
            (flush_check_ins list_store offline drops_out queue).posted
            unsent
          ≡ sort_by_key queue))
flush_check_ins-in_order_example = flush_check_ins-in_order list_store offline drops_out queue

flush_check_ins-loses_example :
    ((flush_check_ins list_store offline (λ log. some (conflict (codes "{}"))) queue).sent ≡ 0)
    × ((p : QueuedCheckIn → Bool)
        → tally p
            (flush_check_ins list_store offline (λ log. some (conflict (codes "{}"))) queue).state
          ≡ 0)
flush_check_ins-loses_example =
    flush_check_ins-loses list_store offline (λ log. some (conflict (codes "{}"))) (codes "{}")
      (λ log. refl) queue queue-IsQueue
