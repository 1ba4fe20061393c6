-- ===== src/TodayPage/Sync/Delivery.antt =====
-- From a tap without a connection to the server.
use travel_planner.Base.{
  ℕ, ◌+◌, ◌<◌, ◌≡◌, refl, ap, ◌∙◌, String, Bool, true, false, Option, none, some, List, [], ◌∷◌,
  ◌++◌, length, tally, to_ℕ, tally-append, All, Code, arith, is_some, Option-cases, Bool-cases, inl,
  inr, str_eq,
}
use travel_planner.Types.{ItineraryWaypoint}
use travel_planner.Api.{Failure}
use travel_planner.Queue.{
  CheckInAction, QueuedCheckIn, key, has_id, CheckInStore, Flushed, remove, flush_items,
  flush_check_ins, sort_by_key, enqueue_check_in, pending_check_ins,
}
use travel_planner.Queue.Replay.{IsQueue, tally-sort_by_key, left_over, flush_check_ins-keeps}
use travel_planner.TodayPage.{Page, item, check_in}
use travel_planner.TodayPage.Sync.{count, sync}

empty_of_tally : {A : Type 0} (xs : List A) → tally (λ x. true) xs ≡ 0 → xs ≡ []
empty_of_tally [] h = refl
empty_of_tally (x ∷ xs) h = absurd (omega (arith, h))

-- A key above those of all items is new.
new_key :
    (n : ℕ) (items : List QueuedCheckIn)
    → All (λ i. is_some i.id ≡ true) items
    → All (λ i. key i < n) items
    → tally (has_id n) items ≡ 0
new_key n [] keyed below = refl
new_key n (i ∷ is) (here, keyed) (first, below) = elim (Option-cases i.id) [
  | inl unkeyed ↦ absurd (ground (arith, here, unkeyed))
  | inr (k, e) ↦
      let small : k < n = rw e at first in rw e (ground (arith, small, new_key n is keyed below))
]

All-append : {A : Type 0} (P : A → Type 0) (xs ys : List A) → All P xs → All P ys → All P (xs ++ ys)
All-append P [] ys h k = k
All-append P (x ∷ xs) ys (here, h) k = (here, All-append P xs ys h k)

module _ (store : CheckInStore) where
  open store use {State, get_all, get_all-add}

  -- Every new check-in keeps the queue well formed.
  pub enqueue_check_in-IsQueue :
      (i : QueuedCheckIn) (s : State)
      → IsQueue (get_all s)
      → IsQueue (get_all (enqueue_check_in store i s))
  unfolding enqueue_check_in
  enqueue_check_in-IsQueue i s h =
      let (n, added, below) = get_all-add (record i { id = none }) s in
      rw added (record {
        keyed =
            All-append (λ j. is_some j.id ≡ true) (get_all s) (record i { id = some n } ∷ [])
              h.keyed (refl, tt);
        unique = λ m. ground (
          arith,
          tally-append (has_id m) (get_all s) (record i { id = some n } ∷ []),
          h.unique m,
          new_key n (get_all s) h.keyed below,
        );
      })

  module _ (browser : Failure → Code) (post : List QueuedCheckIn → Option Failure)
      (taken : (log : List QueuedCheckIn) → post log ≡ none) where
    left_over-taken : (log items : List QueuedCheckIn) → left_over store browser post log items ≡ []
    unfolding left_over
    left_over-taken log [] = refl
    left_over-taken log (i ∷ is) = rw (taken (i ∷ log), left_over) (left_over-taken (i ∷ log) is)

    posted_all :
        (q : QueuedCheckIn → Bool) (items : List QueuedCheckIn) (f : Flushed store)
        → tally q (flush_items store browser post items f).posted ≡ tally q f.posted + tally q items
    unfolding flush_items
    posted_all q [] f = omega arith
    posted_all q (i ∷ is) f =
        rw (taken (i ∷ f.posted), flush_items)
          (omega (
            arith,
            posted_all q is (record {
              state = remove store i f.state;
              sent = f.sent + 1;
              posted = i ∷ f.posted;
            }),
          ))

    flush-posts :
        (q : QueuedCheckIn → Bool) (s : State)
        → tally q (flush_check_ins store browser post s).posted ≡ tally q (get_all s)
    unfolding flush_check_ins pending_check_ins
    flush-posts q s = omega (
      arith,
      posted_all q (sort_by_key (get_all s)) (record { state = s; sent = 0; posted = [] }),
      tally-sort_by_key q (get_all s),
    )

    flush-empties :
        (s : State)
        → IsQueue (get_all s)
        → get_all (flush_check_ins store browser post s).state ≡ []
    flush-empties s h = empty_of_tally (get_all (flush_check_ins store browser post s).state) (
        flush_check_ins-keeps store browser post s (λ i. true) h
        ∙ ap (tally (λ (i : QueuedCheckIn). true)) (left_over-taken [] (sort_by_key (get_all s))))

    nothing_pending :
        (trip_id : String) (s : State)
        → get_all s ≡ []
        → length (pending_check_ins store (some trip_id) s) ≡ 0
    unfolding pending_check_ins
    nothing_pending trip_id s empty = elim (Bool-cases (str_eq trip_id "")) [
      | inl all ↦ rw all (rw empty refl)
      | inr one ↦ rw one (rw empty refl)
    ]

    -- A check-in that is made without a connection is delivered: if the request for every waiting
    -- check-in is accepted at the next sync, the sync posts this one and the ones before it, each
    -- once, nothing waits afterwards, and the page counts nothing.
    pub sync-check_in :
        (trip_id : String) (outcome : Option Failure) (stop : ItineraryWaypoint)
        (action : CheckInAction) (instant : String) (p : Page store trip_id)
        → IsQueue (get_all p.queue)
        → let offline = check_in store trip_id false outcome stop action instant p in
          let (posted, synced) = sync store trip_id browser post true offline in
          ((n : ℕ) × ((q : QueuedCheckIn → Bool)
              → tally q posted
                ≡ tally q (get_all p.queue)
                  + to_ℕ (q (record (item store trip_id stop.id action instant) { id = some n }))))
          × (get_all synced.queue ≡ [])
          × (synced.pending ≡ 0)
    unfolding sync count check_in enqueue_check_in
    sync-check_in trip_id outcome stop action instant p h =
        let i = item store trip_id stop.id action instant in
        let queue = enqueue_check_in store i p.queue in
        let (n, added, below) = get_all-add (record i { id = none }) p.queue in
        let empty = flush-empties queue (enqueue_check_in-IsQueue i p.queue h) in
        (
          (
            n,
            λ q.
                flush-posts q queue
                ∙ ap (tally q) added
                ∙ omega (arith, tally-append q (get_all p.queue) (record i { id = some n } ∷ [])),
          ),
          empty,
          nothing_pending trip_id (flush_check_ins store browser post queue).state empty,
        )
