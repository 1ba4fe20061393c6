-- ===== src/Queue/Replay.antt =====
-- What a flush leaves in the queue.
use travel_planner.Base.{
  ℕ, ◌+◌, ◌≤◌, ◌≡◌, refl, Bool, true, not, ◌&&◌, Option, none, some, List, [], ◌∷◌, if◌then◌else◌,
  tally, to_ℕ, tally-keep, All, arith, Bool-cases, Option-cases, inl, inr, ap, ◌∙◌, Code, is_some,
  sym,
}
use travel_planner.Api.{Failure}
use travel_planner.Api.Message.{message}
use travel_planner.Queue.{
  QueuedCheckIn, has_id, CheckInStore, is_final, remove, Flushed, flush_items, flush_check_ins,
  sort_by_key, insert_by_key, pending_check_ins,
}

-- Every item has a key, and no two have the same.
pub record IsQueue (items : List QueuedCheckIn) : Type 0 where
  pub keyed : All (λ i. is_some i.id ≡ true) items
  pub unique : (n : ℕ) → tally (has_id n) items ≤ 1

pub tally-sort_by_key :
    (p : QueuedCheckIn → Bool) (items : List QueuedCheckIn)
    → tally p (sort_by_key items) ≡ tally p items
unfolding sort_by_key
tally-sort_by_key p [] = refl
tally-sort_by_key p (i ∷ is) = insert i (sort_by_key is) ∙ omega (arith, tally-sort_by_key p is)
  where
    insert :
        (i : QueuedCheckIn) (is : List QueuedCheckIn)
        → tally p (insert_by_key i is) ≡ to_ℕ (p i) + tally p is
    insert i [] = refl
    insert i (j ∷ js) = ground (arith, insert i js)

tally_and_zero :
    (q p : QueuedCheckIn → Bool) (items : List QueuedCheckIn)
    → tally q items ≡ 0
    → tally (λ i. q i && p i) items ≡ 0
tally_and_zero q p [] h = refl
tally_and_zero q p (i ∷ is) h = ground (arith, tally_and_zero q p is)

IsQueue-tail : (i : QueuedCheckIn) (is : List QueuedCheckIn) → IsQueue (i ∷ is) → IsQueue is
IsQueue-tail i is queue = record {
  keyed = queue.keyed.1;
  unique = λ n. omega (arith, queue.unique n);
}

keyed_of_tally :
    (items : List QueuedCheckIn)
    → tally (λ i. not (is_some i.id)) items ≡ 0
    → All (λ i. is_some i.id ≡ true) items
keyed_of_tally [] h = tt
keyed_of_tally (i ∷ is) h = (ground arith, keyed_of_tally is (omega arith))

tally_of_keyed :
    (items : List QueuedCheckIn)
    → All (λ i. is_some i.id ≡ true) items
    → tally (λ i. not (is_some i.id)) items ≡ 0
tally_of_keyed [] h = refl
tally_of_keyed (i ∷ is) (keyed, h) = ground (arith, tally_of_keyed is h)

sort-IsQueue : (items : List QueuedCheckIn) → IsQueue items → IsQueue (sort_by_key items)
sort-IsQueue items queue = record {
  keyed =
      keyed_of_tally (sort_by_key items)
        (tally-sort_by_key (λ i. not (is_some i.id)) items ∙ tally_of_keyed items queue.keyed);
  unique = λ n. rw (tally-sort_by_key (has_id n) items) (queue.unique n);
}

module _ (store : CheckInStore) where
  open store use {State, get_all, delete, get_all-delete}

  -- The store holds these items, in some order.
  abbrev Holds : List QueuedCheckIn → State → Type 0
  Holds items s = (p : QueuedCheckIn → Bool) → tally p (get_all s) ≡ tally p items

  remove_first :
      (i : QueuedCheckIn) (is : List QueuedCheckIn) (s : State)
      → IsQueue (i ∷ is)
      → Holds (i ∷ is) s
      → Holds is (remove store i s)
  remove_first i is s queue holds p = elim (Option-cases i.id) [
    | inl unkeyed ↦ absurd (ground (arith, queue.keyed.0))
    | inr (n, keyed) ↦
        let itself : has_id n i ≡ true = ground arith in
        let others : tally (has_id n) is ≡ 0 = ground (arith, queue.unique n) in
        rw (keyed, remove)
          (ap (tally p) (get_all-delete n s)
            ∙ omega (
              arith,
              tally-keep p (has_id n) (get_all s),
              holds p,
              holds (λ j. has_id n j && p j),
              ap (λ b. to_ℕ (b && p i)) itself,
              tally_and_zero (has_id n) p is others,
            ))
  ]

  module _ (browser : Failure → Code) (post : List QueuedCheckIn → Option Failure) where
    -- The items from the first one on whose request failed, and might succeed later.
    unfoldable pub left_over : List QueuedCheckIn → List QueuedCheckIn → List QueuedCheckIn
    left_over log [] = []
    left_over log (i ∷ is) =
        let rest = left_over (i ∷ log) is in
        elim (post (i ∷ log)) [
          | none ↦ rest
          | some e ↦ if is_final (message browser e) then rest else i ∷ is
        ]

    flush_items-Holds :
        (items : List QueuedCheckIn) (f : Flushed store)
        → IsQueue items
        → Holds items f.state
        → Holds (left_over f.posted items) (flush_items store browser post items f).state
    unfolding flush_items left_over
    flush_items-Holds [] f queue holds p = holds p
    flush_items-Holds (i ∷ is) f queue holds p =
        let removed = remove_first i is f.state queue holds in
        let later = IsQueue-tail i is queue in
        elim (Option-cases (post (i ∷ f.posted))) [
          | inl accepted ↦
              rw (accepted, flush_items, left_over)
                (flush_items-Holds is
                  (record {
                    state = remove store i f.state;
                    sent = f.sent + 1;
                    posted = i ∷ f.posted;
                  })
                  later removed p)
          | inr (e, thrown) ↦ elim (Bool-cases (is_final (message browser e))) [
            | inl final ↦
                rw (thrown, flush_items, left_over)
                  (rw final (
                    flush_items-Holds is
                      (record {
                        state = remove store i f.state;
                        sent = f.sent;
                        posted = i ∷ f.posted;
                      })
                      later removed p))
            | inr transient ↦ rw (thrown, flush_items, left_over) (rw transient (holds p))
          ]
        ]

    -- The keys of the waiting check-ins are distinct. Then a flush leaves exactly those from the
    -- first one on, in the order of their keys, whose request failed with an error that the code
    -- does not count as final: every one before it was sent or dropped after a final error, and no
    -- later one is touched.
    pub flush_check_ins-keeps :
        (s : State) (p : QueuedCheckIn → Bool)
        → IsQueue (get_all s)
        → tally p (get_all (flush_check_ins store browser post s).state)
          ≡ tally p (left_over [] (sort_by_key (get_all s)))
    unfolding flush_check_ins pending_check_ins
    flush_check_ins-keeps s p queue =
        flush_items-Holds (sort_by_key (get_all s)) (record { state = s; sent = 0; posted = [] })
          (sort-IsQueue (get_all s) queue) (λ q. sym (tally-sort_by_key q (get_all s))) p
