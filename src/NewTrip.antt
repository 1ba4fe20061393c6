-- ===== src/NewTrip.antt =====
-- The form for a new trip: frontend/src/app/trips/new/page.tsx.
-- The two zod schemas are written out as tests, which tell the first field that fails. A number of
-- minutes is what `Number` gives, a whole number or anything else. Coordinates are of a type `F`.
use travel_planner.Base.{
  ℕ, ltb, leb, String, Bool, true, false, not, ◌&&◌, ◌||◌, Option, none, some, List, [], ◌∷◌, ◌++◌,
  ◌otherwise◌, if◌then◌else◌, or_null, str_eq,
}
use travel_planner.Reply.{Reply, answered, failed}
use travel_planner.Types.{TripMode, point_to_point, radius}
use travel_planner.Auth.{AuthUser}
use travel_planner.TripPage.{AddressSelection}
use travel_planner.Settings.{Number, whole, other, home_of}
pub mod Submit

-- What the form sends: the fields of the chosen schema. The mode, which the extent tells, and the
-- time zone go with them.
pub data Extent (F : Type 0) : Type 0 where
  ends_at : (address : String) (lat lng : F) → Extent F
  within : (max_drive_minutes : ℕ) → Extent F

pub record TripCreate (F : Type 0) : Type 0 where
  pub title : String
  pub start_address : String
  pub start_lat : F
  pub start_lng : F
  pub notes : Option String
  pub extent : Extent F

pub data Call (F : Type 0) : Type 0 where
  create_trip : TripCreate F → Call F
  calculate_route : (trip_id : String) → Call F

pub data Place : Type 0 where
  trip_page discover_page : (trip_id : String) → Place

pub record NewTripPage (F : Type 0) : Type 0 where
  pub mode : TripMode
  pub title : String
  pub notes : String
  -- The text of the field, read as a number; the empty text is not sent.
  pub max_drive_minutes : Option Number
  pub start_override : Option (AddressSelection F)
  pub end : Option (AddressSelection F)
  pub has_errors : Bool
  pub server_error : Option String
  pub pending : Bool
  pub calls : List (Call F)
  pub pushed : List Place

abbrev pub is_given : String → Bool
is_given text = not (str_eq text "")

module _ {F : Type 0} where
  -- The start: the chosen address, or the home address of the user.
  unfoldable pub start_of : Option (AuthUser F) → NewTripPage F → Option (AddressSelection F)
  start_of user p = elim p.start_override [
    | some start ↦ some start
    | none ↦ elim user [ none ↦ none | some u ↦ home_of u.home_address u.home_lat u.home_lng ]
  ]

  abbrev pub valid_end : Option (AddressSelection F) → Option (Extent F)
  valid_end none = none
  valid_end (some end) =
      if is_given end.address then some (ends_at end.address end.lat end.lng) else none

  -- `z.number().int().positive().max(60)`
  abbrev pub valid_minutes : Option Number → Option (Extent F)
  valid_minutes (some (whole n)) = if leb 1 n && leb n 60 then some (within n) else none
  valid_minutes _ = none

  abbrev pub valid_extent : TripMode → NewTripPage F → Option (Extent F)
  valid_extent point_to_point p = valid_end p.end
  valid_extent radius p = valid_minutes p.max_drive_minutes

  abbrev pub with_start :
      NewTripPage F → Option (AddressSelection F) → Option (Extent F) → Option (TripCreate F)
  with_start p (some start) (some extent) =
      if is_given p.title && is_given start.address
      then some (record {
        title = p.title;
        start_address = start.address;
        start_lat = start.lat;
        start_lng = start.lng;
        notes = or_null p.notes;
        extent = extent;
      })
      else none
  with_start p _ _ = none

  -- `schema.safeParse(raw)`
  unfoldable pub parsed : Option (AuthUser F) → NewTripPage F → Option (TripCreate F)
  parsed user p = with_start p (start_of user p) (valid_extent p.mode p)

  -- Behind the creation: the route is calculated, whose answer changes nothing, or the page for
  -- discovery opens.
  unfoldable pub opened_trip : TripMode → String → NewTripPage F → NewTripPage F
  opened_trip point_to_point id p = record p {
    calls = p.calls ++ calculate_route id ∷ [];
    pushed = trip_page id ∷ p.pushed;
  }
  opened_trip radius id p = record p { pushed = discover_page id ∷ p.pushed }

  unfoldable pub created : Reply String → NewTripPage F → NewTripPage F
  created (answered id) p = record (opened_trip p.mode id p) { pending = false }
  created (failed e) p = record p {
    server_error = some (e otherwise "Failed to create trip");
    pending = false;
  }

  -- `create` is the answer to the creation, the id of the new trip.
  unfoldable pub handle_submit :
      (create : TripCreate F → Reply String) → Option (AuthUser F) → NewTripPage F → NewTripPage F
  handle_submit create user p = elim (parsed user p) [
    | none ↦ record p { server_error = none; has_errors = true }
    | some body ↦ created (create body) (record p {
      server_error = none;
      has_errors = false;
      pending = true;
      calls = p.calls ++ create_trip body ∷ [];
    })
  ]
