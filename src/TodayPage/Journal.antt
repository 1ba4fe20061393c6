-- ===== src/TodayPage/Journal.antt =====
-- Notes, spending and photos: `saveStopNote`, `saveDayNote`, `addExpense` and `removePhoto` of
-- frontend/src/app/trips/[trip_id]/today/page.tsx.
-- `today` is the date in the trip's timezone. A handler runs from its first statement to its last;
-- `log` holds the calls so far, the latest first. Amounts are of a type `F`, of which the page asks
-- whether a text is a finite number, and whether that is above 0.
use travel_planner.Base.{
  ℕ, String, Bool, true, false, not, Option, none, some, List, [], ◌∷◌, ◌++◌, map, keep, find,
  str_eq, if◌then◌else◌, ◌otherwise◌, Code,
}
use travel_planner.Reply.{Reply, answered, failed}
use travel_planner.Types.{Itinerary, ItineraryDay, ItineraryWaypoint}
use travel_planner.Budget.{Expense, ExpenseCategory}
use travel_planner.TodayPage.{change_stop}
use mathlib.Core.Option
pub mod Once

pub record TripPhoto : Type 0 where
  pub id : String
  pub waypoint_id : Option String
  pub itinerary_day_id : Option String
  pub width : ℕ
  pub height : ℕ
  pub caption : Option String
  pub taken_at : Option String
  pub url : String

pub data Call (F : Type 0) : Type 0 where
  patch_stop : (id text : String) → Call F
  patch_day : (id text : String) → Call F
  post_expense : (category : ExpenseCategory) → (amount : F) → (day_id : String) → Call F
  delete_photo : (id : String) → Call F

pub record Server (F : Type 0) : Type 0 where
  pub done : List (Call F) → Reply (Unit {0})
  pub expense : List (Call F) → Reply (Expense F)

pub record Journal (F : Type 0) : Type 0 where
  pub itinerary : Option Itinerary
  pub expenses : List (Expense F)
  pub photos : List TripPhoto
  pub picked_day_id : Option String
  pub note_drafts : String → Option String
  pub day_note : Option String
  pub amount : String
  pub category : ExpenseCategory
  pub toasts : List String
  pub log : List (Call F)

abbrev pub is_on : String → ItineraryDay → Bool
is_on today d = elim d.date [ none ↦ false | some date ↦ str_eq date today ]

abbrev pub is_picked : Option String → ItineraryDay → Bool
is_picked none d = false
is_picked (some id) d = str_eq d.id id

abbrev pub days_of : Option Itinerary → List ItineraryDay
days_of it = elim it [ none ↦ [] | some i ↦ i.days ]

abbrev pub id_of : Option ItineraryDay → Option String
id_of d = Option.map (λ (x : ItineraryDay). x.id) d

-- `pickedDayId ?? autoDay?.id`
abbrev pub chosen : Option String → Option String → Option String
chosen none auto_day = auto_day
chosen (some id) auto_day = some id

-- The day that the page shows.
abbrev pub shown_day : String → Option String → Option Itinerary → Option ItineraryDay
shown_day today picked it =
    find (is_picked (chosen picked (id_of (find (is_on today) (days_of it))))) (days_of it)

abbrev pub with_stop_note : String → ItineraryWaypoint → ItineraryWaypoint
with_stop_note text w = record w { notes = some text }

abbrev pub with_day_note : String → String → ItineraryDay → ItineraryDay
with_day_note id text d = if str_eq d.id id then record d { notes = some text } else d

abbrev pub change_days : (ItineraryDay → ItineraryDay) → Option Itinerary → Option Itinerary
change_days f it = Option.map (λ (i : Itinerary). record i { days = map f i.days }) it

module _ {F : Type 0} where
  abbrev pub calls : Call F → Journal F → Journal F
  calls c j = record j { log = c ∷ j.log }

  -- `toast.error(apiErrorMessage(err, text))`
  abbrev pub reported : Option String → String → Journal F → Journal F
  reported e text j = record j { toasts = (e otherwise text) ∷ j.toasts }

  abbrev pub settled :
      {A : Type 0} → Reply A → String → (A → Journal F → Journal F) → Journal F → Journal F
  settled (answered a) text f j = f a j
  settled (failed e) text f j = reported e text j

  module _ (server : Server F) where
    abbrev pub send_stop_note : ItineraryWaypoint → String → Journal F → Journal F
    send_stop_note stop text j =
        settled (server.done (patch_stop stop.id text ∷ j.log)) "Couldn't save the note"
          (λ _ k. record k { itinerary = change_stop stop.id (with_stop_note text) k.itinerary })
          (calls (patch_stop stop.id text) j)

    unfoldable pub save_stop_note : ItineraryWaypoint → Journal F → Journal F
    save_stop_note stop j = elim (j.note_drafts stop.id) [
      | none ↦ j
      | some text ↦ if str_eq text (stop.notes otherwise "") then j else send_stop_note stop text j
    ]

    abbrev pub send_day_note : ItineraryDay → String → Journal F → Journal F
    send_day_note day text j =
        settled (server.done (patch_day day.id text ∷ j.log)) "Couldn't save the day's notes"
          (λ _ k. record k { itinerary = change_days (with_day_note day.id text) k.itinerary })
          (calls (patch_day day.id text) j)

    abbrev pub note_day : Option ItineraryDay → Option String → Journal F → Journal F
    note_day none text j = j
    note_day (some day) none j = j
    note_day (some day) (some text) j =
        if str_eq text (day.notes otherwise "") then j else send_day_note day text j

    unfoldable pub save_day_note : String → Journal F → Journal F
    save_day_note today j = note_day (shown_day today j.picked_day_id j.itinerary) j.day_note j

    abbrev pub send_expense : ItineraryDay → F → Journal F → Journal F
    send_expense day value j =
        settled (server.expense (post_expense j.category value day.id ∷ j.log))
          "Couldn't add that expense"
          (λ x k. record k { expenses = k.expenses ++ x ∷ []; amount = "" })
          (calls (post_expense j.category value day.id) j)

    unfoldable pub add_expense :
        (finite : String → Option F) (is_positive : F → Bool) → String → Journal F → Journal F
    add_expense finite is_positive today j = elim (shown_day today j.picked_day_id j.itinerary) [
      | none ↦ j
      | some day ↦ elim (finite j.amount) [
        | none ↦ j
        | some value ↦ if is_positive value then send_expense day value j else j
      ]
    ]

    abbrev pub is_photo : String → TripPhoto → Bool
    is_photo id p = str_eq p.id id

    unfoldable pub remove_photo : TripPhoto → Journal F → Journal F
    remove_photo photo j =
        settled (server.done (delete_photo photo.id ∷ j.log)) "Couldn't delete the photo"
          (λ _ k. record k { photos = keep (λ p. not (is_photo photo.id p)) k.photos })
          (calls (delete_photo photo.id) j)
