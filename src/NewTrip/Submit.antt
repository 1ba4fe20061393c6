-- ===== src/NewTrip/Submit.antt =====
-- What becomes of a submitted form.
use travel_planner.Base.{
  leb, ◌≡◌, ◌≤◌, refl, ap, String, true, false, ◌&&◌, Option, none, some, [], ◌∷◌, ◌++◌,
  ◌otherwise◌, ◌⊎◌, inl, inr, arith, Bool-cases,
}
use travel_planner.Reply.{Reply, answered, failed}
use travel_planner.Types.{TripMode, point_to_point, radius}
use travel_planner.Auth.{AuthUser}
use travel_planner.TripPage.{AddressSelection}
use travel_planner.Settings.{Number, whole, other}
use travel_planner.NewTrip.{
  Extent, ends_at, within, TripCreate, create_trip, calculate_route, Place, trip_page,
  discover_page, NewTripPage, start_of, is_given, valid_end, valid_minutes, valid_extent,
  with_start, parsed, opened_trip, created, handle_submit,
}

-- An extent of the mode, with an address or with a number of minutes from 1 to 60.
unfoldable pub FitsMode : {F : Type 0} → TripMode → Extent F → Type 0
FitsMode point_to_point (ends_at address lat lng) = is_given address ≡ true
FitsMode radius (within n) = (1 ≤ n) × (n ≤ 60)
FitsMode point_to_point (within n) = ⊥
FitsMode radius (ends_at address lat lng) = ⊥

pub record IsValid {F : Type 0} (mode : TripMode) (body : TripCreate F) : Type 0 where
  pub has_title : is_given body.title ≡ true
  pub has_start : is_given body.start_address ≡ true
  pub fits : FitsMode mode body.extent

-- The form's content is that of `body`, if there is one.
abbrev pub Sends : {F : Type 0} → TripMode → Option (TripCreate F) → Type 0
Sends mode none = Unit
Sends mode (some body) = IsValid mode body

abbrev pub Fits : {F : Type 0} → TripMode → Option (Extent F) → Type 0
Fits mode none = Unit
Fits mode (some extent) = FitsMode mode extent

valid_end-Fits :
    {F : Type 0} (end : Option (AddressSelection F)) → Fits point_to_point (valid_end end)
unfolding FitsMode
valid_end-Fits none = tt
valid_end-Fits (some end) = elim (Bool-cases (is_given end.address)) [
  | inl given ↦ rw (given, valid_end) given
  | inr empty ↦ rw (empty, valid_end) tt
]

valid_minutes-Fits : (F : Type 0) (n : Option Number) → Fits {F = F} radius (valid_minutes n)
unfolding FitsMode
valid_minutes-Fits F none = tt
valid_minutes-Fits F (some other) = tt
valid_minutes-Fits F (some (whole n)) = elim (Bool-cases (leb 1 n && leb n 60)) [
  | inl good ↦ rw (good, valid_minutes) (ground (arith, good), ground (arith, good))
  | inr bad ↦ rw (bad, valid_minutes) tt
]

valid_extent-Fits :
    {F : Type 0} (mode : TripMode) (p : NewTripPage F) → Fits mode (valid_extent mode p)
valid_extent-Fits point_to_point p = valid_end-Fits p.end
valid_extent-Fits radius p = valid_minutes-Fits _ p.max_drive_minutes

with_start-Sends :
    {F : Type 0} (p : NewTripPage F) (mode : TripMode) (start : Option (AddressSelection F))
    (extent : Option (Extent F))
    → Fits mode extent
    → Sends mode (with_start p start extent)
with_start-Sends p mode none none fits = tt
with_start-Sends p mode none (some extent) fits = tt
with_start-Sends p mode (some start) none fits = tt
with_start-Sends p mode (some start) (some extent) fits =
    elim (Bool-cases (is_given p.title && is_given start.address)) [
      | inl given ↦
          rw (given, with_start)
            (record {
              has_title = ground (arith, given);
              has_start = ground (arith, given);
              fits = fits;
            })
      | inr missing ↦ rw (missing, with_start) tt
    ]

-- What a submitted form becomes: `p` before and `q` after.
pub data Outcome {F : Type 0} (create : TripCreate F → Reply String) (p q : NewTripPage F)
    : Type 0 where
  -- Nothing is sent, and the fields that are wrong are marked.
  rejects : q.has_errors ≡ true → q.calls ≡ p.calls → q.pushed ≡ p.pushed → Outcome create p q
  -- A valid body is sent and refused: the form stays, with the message.
  is_refused :
      (body : TripCreate F) (e : Option String)
      → IsValid p.mode body
      → create body ≡ failed e
      → q.calls ≡ p.calls ++ create_trip body ∷ []
      → q.pushed ≡ p.pushed
      → q.server_error ≡ some (e otherwise "Failed to create trip")
      → q.pending ≡ false
      → Outcome create p q
  -- A valid body is sent and the new trip opens, in the page of its mode.
  opens :
      (body : TripCreate F) (id : String) (place : Place)
      → IsValid p.mode body
      → create body ≡ answered id
      → q.pushed ≡ place ∷ p.pushed
      → ((p.mode ≡ point_to_point)
          × (place ≡ trip_page id)
          × (q.calls ≡ (p.calls ++ create_trip body ∷ []) ++ calculate_route id ∷ []))
        ⊎ ((p.mode ≡ radius)
            × (place ≡ discover_page id)
            × (q.calls ≡ p.calls ++ create_trip body ∷ []))
      → Outcome create p q

-- The form as its request is under way.
abbrev sent : {F : Type 0} → NewTripPage F → TripCreate F → NewTripPage F
sent p body = record p {
  server_error = none;
  has_errors = false;
  pending = true;
  calls = p.calls ++ create_trip body ∷ [];
}

created-Outcome :
    {F : Type 0} (create : TripCreate F → Reply String) (p : NewTripPage F) (body : TripCreate F)
    → (mode : TripMode) (reply : Reply String) → p.mode ≡ mode
    → create body ≡ reply
    → IsValid p.mode body
    → Outcome create p (created reply (sent p body))
unfolding created opened_trip
created-Outcome create p body mode (failed e) is_mode answer good =
    is_refused body e good answer refl refl refl refl
created-Outcome create p body point_to_point (answered id) is_mode answer good =
    opens body id (trip_page id) good answer
      (ap (λ mode. (opened_trip mode id (sent p body)).pushed) is_mode)
      (inl (is_mode, refl, ap (λ mode. (opened_trip mode id (sent p body)).calls) is_mode))
created-Outcome create p body radius (answered id) is_mode answer good =
    opens body id (discover_page id) good answer
      (ap (λ mode. (opened_trip mode id (sent p body)).pushed) is_mode)
      (inr (is_mode, refl, ap (λ mode. (opened_trip mode id (sent p body)).calls) is_mode))

submitted :
    {F : Type 0} (create : TripCreate F → Reply String) (user : Option (AuthUser F))
    → (p : NewTripPage F) (body : Option (TripCreate F)) → parsed user p ≡ body
    → Sends p.mode body
    → Outcome create p (handle_submit create user p)
unfolding handle_submit
submitted create user p none e good = rw (e, handle_submit) (rejects refl refl refl)
submitted create user p (some body) e good =
    rw (e, handle_submit) (created-Outcome create p body p.mode (create body) refl refl good)

-- A submitted form comes to one of three ends, as `Outcome` says: nothing is sent; a valid trip is
-- sent and refused; or a valid trip is sent and its page opens, whatever becomes of the route. A
-- valid trip has a title and a start, and an end, or a number of minutes from 1 to 60.
pub handle_submit-Outcome :
    {F : Type 0} (create : TripCreate F → Reply String) (user : Option (AuthUser F))
    → (p : NewTripPage F) → Outcome create p (handle_submit create user p)
unfolding parsed
handle_submit-Outcome create user p = submitted create user p (parsed user p) refl (
    with_start-Sends p p.mode (start_of user p) (valid_extent p.mode p)
      (valid_extent-Fits p.mode p))
