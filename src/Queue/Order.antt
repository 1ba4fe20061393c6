-- ===== src/Queue/Order.antt =====
-- The order of a flush.
use travel_planner.Base.{
  ◌+◌, ◌≤◌, ◌≡◌, refl, Option, List, [], ◌∷◌, All, arith, Bool-cases, Option-cases, inl, inr, leb,
  Code,
}
use travel_planner.Api.{Failure}
use travel_planner.Api.Message.{message}
use travel_planner.Queue.{
  QueuedCheckIn, key, CheckInStore, is_final, remove, Flushed, flush_items, flush_check_ins,
  sort_by_key, insert_by_key, pending_check_ins,
}

-- Each key is at most every later one.
abbrev pub IsAscending : List QueuedCheckIn → Type 0
IsAscending [] = Unit
IsAscending (i ∷ is) = All (λ j. key i ≤ key j) is × IsAscending is

All-weaken :
    (i j : QueuedCheckIn) (is : List QueuedCheckIn)
    → key i ≤ key j
    → All (λ k. key j ≤ key k) is
    → All (λ k. key i ≤ key k) is
All-weaken i j [] h all = tt
All-weaken i j (k ∷ ks) h (p, all) = (omega arith, All-weaken i j ks h all)

All-insert :
    (i j : QueuedCheckIn) (is : List QueuedCheckIn)
    → key j ≤ key i
    → All (λ k. key j ≤ key k) is
    → All (λ k. key j ≤ key k) (insert_by_key i is)
unfolding insert_by_key
All-insert i j [] h all = (h, tt)
All-insert i j (k ∷ ks) h (p, all) = elim (Bool-cases (leb (key i) (key k))) [
  | inl here ↦ rw here (h, (p, all))
  | inr later ↦ rw later (p, All-insert i j ks h all)
]

insert-IsAscending :
    (i : QueuedCheckIn) (is : List QueuedCheckIn)
    → IsAscending is
    → IsAscending (insert_by_key i is)
unfolding insert_by_key
insert-IsAscending i [] h = (tt, tt)
insert-IsAscending i (j ∷ js) (least, h) = elim (Bool-cases (leb (key i) (key j))) [
  | inl here ↦
      let le : key i ≤ key j = ground arith in
      rw here ((le, All-weaken i j js le least), (least, h))
  | inr later ↦ rw later (All-insert i j js (ground arith) least, insert-IsAscending i js h)
]

sort-IsAscending : (is : List QueuedCheckIn) → IsAscending (sort_by_key is)
unfolding sort_by_key
sort-IsAscending [] = tt
sort-IsAscending (i ∷ is) = insert-IsAscending i (sort_by_key is) (sort-IsAscending is)

-- The items of a log, the earliest first.
abbrev pub in_order : List QueuedCheckIn → List QueuedCheckIn → List QueuedCheckIn
in_order [] later = later
in_order (i ∷ log) later = in_order log (i ∷ later)

module _ (store : CheckInStore) (browser : Failure → Code)
    (post : List QueuedCheckIn → Option Failure) where
  open store use {State, get_all}

  flush_items-in_order :
      (items : List QueuedCheckIn) (f : Flushed store)
      → (unsent : List QueuedCheckIn) × (in_order
            (flush_items store browser post items f).posted
            unsent
          ≡ in_order f.posted items)
  unfolding flush_items
  flush_items-in_order [] f = ([], refl)
  flush_items-in_order (i ∷ is) f = elim (Option-cases (post (i ∷ f.posted))) [
    | inl accepted ↦
        rw (accepted, flush_items)
          (flush_items-in_order is
            (record { state = remove store i f.state; sent = f.sent + 1; posted = i ∷ f.posted }))
    | inr (e, thrown) ↦ elim (Bool-cases (is_final (message browser e))) [
      | inl final ↦
          rw (thrown, flush_items)
            (rw final (
              flush_items-in_order is
                (record { state = remove store i f.state; sent = f.sent; posted = i ∷ f.posted })))
      | inr transient ↦ (is, rw (thrown, flush_items) (rw transient refl))
    ]
  ]

  -- A flush posts the waiting check-ins one after the other by ascending key, each at most once:
  -- what it posted, followed by what it did not, is the sorted queue.
  pub flush_check_ins-in_order :
      (s : State)
      → IsAscending (sort_by_key (get_all s))
        × ((unsent : List QueuedCheckIn) × (in_order
                (flush_check_ins store browser post s).posted
                unsent
              ≡ sort_by_key (get_all s)))
  unfolding flush_check_ins pending_check_ins
  flush_check_ins-in_order s = (
    sort-IsAscending (get_all s),
    flush_items-in_order (sort_by_key (get_all s)) (record { state = s; sent = 0; posted = [] }),
  )
