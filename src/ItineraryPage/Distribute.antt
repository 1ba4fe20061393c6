-- ===== src/ItineraryPage/Distribute.antt =====
-- `handleDistribute` of the itinerary page: every unscheduled stop goes to a day, in even chunks.
use travel_planner.Base.{
  ℕ, ◌+◌, ◌/◌, ◌%◌, String, Bool, true, false, Option, none, some, List, [], ◌∷◌, ◌++◌, map, str_eq,
  if◌then◌else◌, keep, any, length, slice, ltb, ◌otherwise◌,
}
use travel_planner.Reply.{Reply, answered, failed}
use travel_planner.Types.{Itinerary, ItineraryDay, ItineraryWaypoint}
use travel_planner.ItineraryPage.{
  Call, assign, Server, Page, calls, toast, error_toast, distributed, handle_add_day,
  load_itinerary,
}
pub mod Spread
pub mod Even
pub mod Sent

abbrev pub includes : List String → String → Bool
includes ids id = any (str_eq id) ids

abbrev pub day_ids : ItineraryDay → List String
day_ids d = map (λ w. w.id) d.waypoints

-- The loop that fills the buckets, from day `i` and the cursor on.
pub fill :
    (per_day remainder : ℕ)
    → List String
    → (i cursor : ℕ) → List ItineraryDay
    → List (ItineraryDay × List String)
fill per_day remainder pending i cursor [] = []
fill per_day remainder pending i cursor (d ∷ ds) =
    let take = per_day + (if ltb i remainder then 1 else 0) in
    (d, day_ids d ++ slice cursor (cursor + take) pending)
    ∷ fill per_day remainder pending (i + 1) (cursor + take) ds

pub buckets : List ItineraryDay → List String → List (ItineraryDay × List String)
buckets days pending =
    fill (length pending / length days) (length pending % length days) pending 0 0 days

-- The loop that turns buckets into calls: one for each day that gets a stop.
pub bucket_calls : List String → List (ItineraryDay × List String) → List Call
bucket_calls pending [] = []
bucket_calls pending ((d, bucket) ∷ rest) =
    let later = bucket_calls pending rest in
    elim (keep (includes pending) bucket) [
      | [] ↦ later
      | id ∷ ids ↦ assign d.id (id ∷ ids) bucket ∷ later
    ]

unfoldable pub distribute_calls : List ItineraryDay → List String → List Call
unfolding buckets fill bucket_calls
distribute_calls days pending = bucket_calls pending (buckets days pending)

module _ (server : Server) where
  -- Awaits the calls in order; the first failure ends the loop.
  pub sends : List Call → Page → Page × Reply (Unit {0})
  sends [] p = (p, answered tt)
  sends (c ∷ cs) p = elim (server.send (c ∷ p.log)) [
    | answered _ ↦ sends cs (calls c p)
    | failed e ↦ (calls c p, failed e)
  ]

  abbrev sent : (stops days : ℕ) → Reply (Unit {0}) → Page → Page
  sent stops days (answered _) p = toast (distributed stops days) (load_itinerary server p)
  sent stops days (failed e) p =
      load_itinerary server (toast (error_toast (e otherwise "Failed to distribute stops")) p)

  pub distribute_over : List ItineraryDay → List String → Page → Page
  distribute_over days pending p =
      let (p', reply) = sends (distribute_calls days pending) p in
      sent (length pending) (length days) reply p'

  abbrev distribute_created : List String → Option ItineraryDay → Page → Page
  distribute_created pending none p = p
  distribute_created pending (some day) p = distribute_over (day ∷ []) pending p

  abbrev distribute_days : List ItineraryDay → List String → Page → Page
  distribute_days [] pending p =
      let (p', created) = handle_add_day server p in distribute_created pending created p'
  distribute_days (d ∷ ds) pending p = distribute_over (d ∷ ds) pending p

  abbrev distribute_stops : Itinerary → List ItineraryWaypoint → Page → Page
  distribute_stops it [] p = p
  distribute_stops it (w ∷ ws) p =
      record (distribute_days it.days (map (λ v. v.id) (w ∷ ws))
        (record p { distributing = true })) { distributing = false }

  pub handle_distribute : Page → Page
  handle_distribute p = elim p.itinerary [
    | none ↦ p
    | some it ↦ distribute_stops it it.unscheduled_waypoints p
  ]
