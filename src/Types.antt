-- ===== src/Types.antt =====
-- The domain types of frontend/src/types/index.ts that the pages keep in their state.
-- Instants, dates and clock times are the strings that the API sends. Coordinates and other
-- fractional JavaScript numbers are of a type `F` that the development never looks into.
use travel_planner.Base.{ℕ, String, Bool, Option, List}

pub data TripMode : Type 0 where
  point_to_point radius : TripMode

pub data TripStatus : Type 0 where
  draft planned completed : TripStatus

pub data TripRole : Type 0 where
  owner editor viewer : TripRole

pub record Waypoint (F : Type 0) : Type 0 where
  pub id : String
  pub trip_id : String
  pub position : ℕ
  pub address : String
  pub lat : F
  pub lng : F
  pub label : Option String
  pub stop_duration_minutes : Option ℕ
  pub notes : Option String
  pub drive_seconds_from_prev : Option ℕ
  pub distance_meters_from_prev : Option ℕ
  pub place_id : Option String
  pub itinerary_day_id : Option String
  pub scheduled_arrival_time : Option String
  pub visited_at : Option String
  pub skipped : Bool
  pub created_at : String

pub record Trip (F : Type 0) : Type 0 where
  pub id : String
  pub user_id : String
  pub title : String
  pub mode : TripMode
  pub status : TripStatus
  pub start_address : String
  pub start_lat : F
  pub start_lng : F
  pub end_address : Option String
  pub end_lat : Option F
  pub end_lng : Option F
  pub max_drive_minutes : Option ℕ
  pub notes : Option String
  pub total_distance_meters : Option ℕ
  pub total_drive_seconds : Option ℕ
  pub route_polyline : Option String
  pub share_token : Option String
  pub is_public : Bool
  pub start_date : Option String
  pub cover_image_url : Option String
  pub vehicle_mpg : F
  pub fuel_price_per_unit : F
  pub budget_total : Option F
  pub currency : String
  pub timezone : String
  pub is_example : Bool
  pub share_recap : Bool
  pub in_progress : Bool
  pub ended : Bool
  pub my_role : TripRole
  pub owner_name : Option String
  pub member_count : ℕ
  pub version : ℕ
  pub created_at : String
  pub updated_at : String
  pub waypoints : List (Waypoint F)

pub record ItineraryWaypoint : Type 0 where
  pub id : String
  pub label : Option String
  pub address : String
  pub position : ℕ
  pub day_position : Option ℕ
  pub scheduled_arrival_time : Option String
  pub drive_seconds_from_prev : Option ℕ
  pub stop_duration_minutes : Option ℕ
  pub notes : Option String
  pub visited_at : Option String
  pub skipped : Bool

pub record ItineraryDay : Type 0 where
  pub id : String
  pub trip_id : String
  pub day_number : ℕ
  pub date : Option String
  pub title : Option String
  pub notes : Option String
  pub waypoints : List ItineraryWaypoint

pub record Itinerary : Type 0 where
  pub trip_id : String
  pub days : List ItineraryDay
  pub unscheduled_waypoints : List ItineraryWaypoint
