-- ===== src/Queue/Final.antt =====
-- Which failures a flush gives up on.
use travel_planner.Base.{
  ℕ, ◌≤◌, ◌<◌, ◌≡◌, refl, Bool, true, ◌&&◌, leb, ltb, Code, show_three, arith, List, [], ◌∷◌,
  Option, none, some, tally, ap, ◌∙◌,
}
use travel_planner.Api.{Failure, conflict, http}
use travel_planner.Api.Message.{message}
use travel_planner.Queue.{
  is_api_4xx, is_final, CheckInStore, QueuedCheckIn, Flushed, flush_items, flush_check_ins, remove,
  sort_by_key, pending_check_ins,
}
use travel_planner.Queue.Replay.{IsQueue, left_over, flush_check_ins-keeps}

-- An HTTP failure with a three-digit status is final exactly when the status is 4xx.
pub is_final-http :
    (browser : Failure → Code) (status : ℕ) (text : Code)
    → 100 ≤ status
    → status < 1000
    → is_final (message browser (http status text)) ≡ (leb 400 status && ltb status 500)
unfolding is_api_4xx message
is_final-http browser status text low high = rw (show_three status low high) (ground arith)

is_final-conflict :
    (browser : Failure → Code) (body : Code) → is_final (message browser (conflict body)) ≡ true
unfolding is_api_4xx message
is_final-conflict browser body = refl

module _ (store : CheckInStore) (browser : Failure → Code)
    (post : List QueuedCheckIn → Option Failure) (body : Code)
    (stale : (log : List QueuedCheckIn) → post log ≡ some (conflict body)) where
  open store use {State, get_all}

  left_over-conflict :
      (log items : List QueuedCheckIn) → left_over store browser post log items ≡ []
  unfolding left_over
  left_over-conflict log [] = refl
  left_over-conflict log (i ∷ is) =
      rw (stale (i ∷ log), left_over)
        (rw (is_final-conflict browser body) (left_over-conflict (i ∷ log) is))

  sent-conflict :
      (items : List QueuedCheckIn) (f : Flushed store)
      → (flush_items store browser post items f).sent ≡ f.sent
  unfolding flush_items
  sent-conflict [] f = refl
  sent-conflict (i ∷ is) f =
      rw (stale (i ∷ f.posted), flush_items)
        (rw (is_final-conflict browser body) (
          sent-conflict is
            (record { state = remove store i f.state; sent = f.sent; posted = i ∷ f.posted })))

  -- If someone else changed the trip while the phone was offline, so that the server answers every
  -- replay with a version conflict, a flush sends nothing and still empties the queue: all the
  -- waiting check-ins are lost.
  pub flush_check_ins-loses :
      (s : State)
      → IsQueue (get_all s)
      → ((flush_check_ins store browser post s).sent ≡ 0)
        × ((p : QueuedCheckIn → Bool)
            → tally p (get_all (flush_check_ins store browser post s).state) ≡ 0)
  unfolding flush_check_ins
  flush_check_ins-loses s queue = (
    sent-conflict (sort_by_key (pending_check_ins store none s))
        (record { state = s; sent = 0; posted = [] }),
    λ p.
        unfold flush_check_ins in
        flush_check_ins-keeps store browser post s p queue
        ∙ ap (tally p) (left_over-conflict [] (sort_by_key (get_all s))),
  )
