-- ===== src/Queue.antt =====
-- Check-ins that wait for a connection: frontend/src/lib/offlineQueue.ts.
-- The IndexedDB object store is the interface `CheckInStore`, with the documented behaviour of a
-- store with an auto-incremented key; its own failures are left out.
use travel_planner.Base.{
  ℕ, ◌+◌, ◌<◌, ◌==◌, ◌≡◌, leb, Bool, true, false, not, ◌||◌, Option, none, some, List, [], ◌∷◌,
  ◌++◌, if◌then◌else◌, Code, codes, strip, starts_with, is_digit, String, str_eq, keep, ◌otherwise◌,
  All,
}
use travel_planner.Api.{Failure}
use travel_planner.Api.Message.{message}
pub mod Replay
pub mod Order
pub mod Final

pub data CheckInAction : Type 0 where
  arrived skipped undo : CheckInAction

pub record QueuedCheckIn : Type 0 where
  pub id : Option ℕ
  pub trip_id : String
  pub waypoint_id : String
  pub action : CheckInAction
  pub at : String

abbrev pub key : QueuedCheckIn → ℕ
key item = item.id otherwise 0

abbrev pub has_id : ℕ → QueuedCheckIn → Bool
has_id n item = elim item.id [ none ↦ false | some k ↦ k == n ]

pub record CheckInStore : Type 1 where
  pub State : Type 0
  pub add : QueuedCheckIn → State → State
  pub get_all : State → List QueuedCheckIn
  pub delete : ℕ → State → State
  -- A new item gets a key above every key that the store holds.
  pub get_all-add :
      (item : QueuedCheckIn) (s : State)
      → (n : ℕ) × (get_all (add item s) ≡ get_all s ++ record item { id = some n } ∷ [])
        × All (λ i. key i < n) (get_all s)
  pub get_all-delete :
      (n : ℕ) (s : State) → get_all (delete n s) ≡ keep (λ i. not (has_id n i)) (get_all s)

-- `sort((a, b) => (a.id ?? 0) - (b.id ?? 0))`, which is stable.
insert_by_key : QueuedCheckIn → List QueuedCheckIn → List QueuedCheckIn
insert_by_key item [] = item ∷ []
insert_by_key item (i ∷ is) =
    if leb (key item) (key i) then item ∷ i ∷ is else i ∷ insert_by_key item is

unfoldable pub sort_by_key : List QueuedCheckIn → List QueuedCheckIn
unfolding insert_by_key
sort_by_key [] = []
sort_by_key (i ∷ is) = insert_by_key i (sort_by_key is)

abbrev pub two_digits : Code → Bool
two_digits (a ∷ b ∷ rest) = if is_digit a then is_digit b else false
two_digits _ = false

-- /^API 4\d\d/
unfoldable pub is_api_4xx : Code → Bool
is_api_4xx text = elim (strip (codes "API 4") text) [ none ↦ false | some rest ↦ two_digits rest ]

-- The item can never succeed, by the message of the error that its request threw.
abbrev pub is_final : Code → Bool
is_final text = is_api_4xx text || starts_with text (codes "Session expired")

module _ (store : CheckInStore) where
  open store use {State, add, get_all, delete}

  unfoldable pub enqueue_check_in : QueuedCheckIn → State → State
  enqueue_check_in item s = add (record item { id = none }) s

  unfoldable pub pending_check_ins : Option String → State → List QueuedCheckIn
  pending_check_ins none s = get_all s
  pending_check_ins (some trip_id) s =
      if str_eq trip_id "" then get_all s else keep (λ i. str_eq i.trip_id trip_id) (get_all s)

  abbrev pub remove : QueuedCheckIn → State → State
  remove item s = elim item.id [ none ↦ s | some n ↦ delete n s ]

  -- What a flush leaves: the store, the number of check-ins sent, and the items posted, the latest
  -- first.
  pub record Flushed : Type 0 where
    pub state : State
    pub sent : ℕ
    pub posted : List QueuedCheckIn

  -- `post` is what the request for the newest item of a log throws, `none` if it succeeds.
  module _ (browser : Failure → Code) (post : List QueuedCheckIn → Option Failure) where
    unfoldable pub flush_items : List QueuedCheckIn → Flushed → Flushed
    flush_items [] f = f
    flush_items (i ∷ is) f =
        let tried = record f { posted = i ∷ f.posted } in
        let sent_on =
          flush_items is (record tried { state = remove i f.state; sent = f.sent + 1 }) in
        let dropped_on = flush_items is (record tried { state = remove i f.state }) in
        elim (post tried.posted) [
          | none ↦ sent_on
          | some e ↦ if is_final (message browser e) then dropped_on else tried
        ]

    unfoldable pub flush_check_ins : State → Flushed
    unfolding flush_items pending_check_ins
    flush_check_ins s =
        flush_items (sort_by_key (pending_check_ins none s))
          (record { state = s; sent = 0; posted = [] })
