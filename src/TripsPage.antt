-- ===== src/TripsPage.antt =====
-- The list of trips: frontend/src/app/trips/page.tsx.
-- A fetch of the list is two sections, before and behind its await, since several can be under
-- way; the other handlers run from their first statement to their last.
use travel_planner.Base.{
  ℕ, String, Bool, true, false, not, Option, none, some, List, [], ◌∷◌, keep, str_eq, if◌then◌else◌,
  ◌otherwise◌,
}
use travel_planner.Reply.{Reply, answered, failed}
use travel_planner.Types.{TripMode, TripStatus, TripRole}
pub mod Order

pub record TripListItem : Type 0 where
  pub id : String
  pub title : String
  pub total_distance_meters : Option ℕ
  pub total_drive_seconds : Option ℕ
  pub cover_image_url : Option String
  pub is_example : Option Bool
  pub role : Option TripRole
  pub owner_name : Option String
  pub route_thumb : Option String
  pub start_date : Option String
  pub is_public : Bool
  pub mode : TripMode
  pub status : TripStatus
  pub created_at : String
  pub updated_at : String

pub data SortKey : Type 0 where
  by_created_at by_updated_at by_start_date : SortKey

pub data Scope : Type 0 where
  all_trips mine shared_with_me : Scope

-- The query of a fetch; `none` is the status "all".
pub record Filters : Type 0 where
  pub status : Option TripStatus
  pub sort : SortKey
  pub scope : Scope

pub record TripsPage : Type 0 where
  pub trips : List TripListItem
  pub loading : Bool
  pub error : Option String
  pub filters : Filters
  pub toasts : List String

-- What a fetch asks for, and the page.
unfoldable pub fetch_begun : Filters → TripsPage → Filters × TripsPage
fetch_begun filters p = (filters, record p { loading = true; error = none })

-- `items` of the answer.
unfoldable pub fetch_settled : Reply (List TripListItem) → TripsPage → TripsPage
fetch_settled (answered items) p = record p { trips = items; loading = false }
fetch_settled (failed e) p = record p {
  error = some (e otherwise "Failed to load trips");
  loading = false;
}

-- A click on a filter renders the page with it, and the effect fetches.
unfoldable pub choose_filters : Filters → TripsPage → Filters × TripsPage
unfolding fetch_begun
choose_filters filters p = fetch_begun filters (record p { filters = filters })

abbrev pub refetching : {A : Type 0} → Reply A → String → TripsPage → Option Filters × TripsPage
refetching (answered a) text p = let (asked, q) = fetch_begun p.filters p in (some asked, q)
refetching (failed e) text p = (none, record p { toasts = (e otherwise text) ∷ p.toasts })

-- With the answer to the request, and what is asked for behind it.
unfoldable pub handle_duplicate : Reply (Unit {0}) → TripsPage → Option Filters × TripsPage
handle_duplicate reply p = refetching reply "Failed to duplicate trip" p

unfoldable pub handle_archive : Reply (Unit {0}) → TripsPage → Option Filters × TripsPage
handle_archive reply p = refetching reply "Failed to archive trip" p

abbrev pub is_trip : String → TripListItem → Bool
is_trip id t = str_eq t.id id

abbrev pub delete_settled : Reply (Unit {0}) → String → TripsPage → TripsPage
delete_settled (answered a) id p = record p { trips = keep (λ t. not (is_trip id t)) p.trips }
delete_settled (failed e) id p = record p {
  toasts = (e otherwise "Failed to delete trip") ∷ p.toasts;
}

unfoldable pub handle_delete :
    (confirmed : Bool) → Reply (Unit {0}) → String → TripsPage → TripsPage
handle_delete confirmed reply id p = if confirmed then delete_settled reply id p else p
