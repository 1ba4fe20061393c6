-- ===== src/TodayPage/Journal/Once.antt =====
-- A note is sent once.
use travel_planner.Base.{
  ◌≡◌, refl, ap, ◌∙◌, String, true, false, Option, none, some, ◌∷◌, map, find, find-map, str_eq,
  eq_refl, arith, ◌otherwise◌, Bool-cases, inl, inr,
}
use travel_planner.Reply.{answered}
use travel_planner.Types.{Itinerary, ItineraryDay}
use travel_planner.TodayPage.Journal.{
  Journal, Server, patch_day, is_on, is_picked, days_of, id_of, chosen, shown_day, with_day_note,
  change_days, calls, note_day, save_day_note,
}
use mathlib.Core.Option

module _ (id text : String) where
  id-with_day_note : (d : ItineraryDay) → (with_day_note id text d).id ≡ d.id
  id-with_day_note d = ground arith

  is_on-with_day_note :
      (today : String) (d : ItineraryDay) → is_on today (with_day_note id text d) ≡ is_on today d
  is_on-with_day_note today d = elim (Bool-cases (str_eq d.id id)) [
    | inl it ↦ rw it refl
    | inr other ↦ rw other refl
  ]

  is_picked-with_day_note :
      (picked : Option String) (d : ItineraryDay)
      → is_picked picked (with_day_note id text d) ≡ is_picked picked d
  is_picked-with_day_note none d = refl
  is_picked-with_day_note (some k) d = ap (λ i. str_eq i k) (id-with_day_note d)

  days_of-change_days :
      (it : Option Itinerary)
      → days_of (change_days (with_day_note id text) it) ≡ map (with_day_note id text) (days_of it)
  days_of-change_days none = refl
  days_of-change_days (some i) = refl

  id_of-map : (o : Option ItineraryDay) → id_of (Option.map (with_day_note id text) o) ≡ id_of o
  id_of-map none = refl
  id_of-map (some d) = ap some (id-with_day_note d)

  -- The page shows the same day, with its note.
  shown_day-change_days :
      (today : String) (picked : Option String) (it : Option Itinerary)
      → shown_day today picked (change_days (with_day_note id text) it)
        ≡ Option.map (with_day_note id text) (shown_day today picked it)
  shown_day-change_days today picked it =
      rw
        (
          days_of-change_days it,
          find-map (is_on today) (is_on today) (with_day_note id text) (days_of it)
              (is_on-with_day_note today),
          id_of-map (find (is_on today) (days_of it)),
        )
        (let key = chosen picked (id_of (find (is_on today) (days_of it))) in
          find-map (is_picked key) (is_picked key) (with_day_note id text) (days_of it)
            (is_picked-with_day_note key))

module _ {F : Type 0} (server : Server F) where
  -- What has been taken already is not sent.
  save_day_note-noted :
      (today : String) (j : Journal F) (day : ItineraryDay) (text : String)
      → shown_day today j.picked_day_id j.itinerary ≡ some day
      → j.day_note ≡ some text
      → str_eq text (day.notes otherwise "") ≡ true
      → save_day_note server today j ≡ j
  unfolding save_day_note
  save_day_note-noted today j day text shown drafted same =
      ap (λ d. note_day server d j.day_note j) shown
      ∙ ap (λ n. note_day server (some day) n j) drafted
      ∙ rw same refl

  -- The journal once the note of a day is taken.
  abbrev noted_in : ItineraryDay → String → Journal F → Journal F
  noted_in day text j = record (calls (patch_day day.id text) j) {
    itinerary = change_days (with_day_note day.id text) j.itinerary;
  }

  save_day_note-sends :
      (today : String) (j : Journal F) (day : ItineraryDay) (text : String)
      → shown_day today j.picked_day_id j.itinerary ≡ some day
      → j.day_note ≡ some text
      → str_eq text (day.notes otherwise "") ≡ false
      → server.done (patch_day day.id text ∷ j.log) ≡ answered tt
      → save_day_note server today j ≡ noted_in day text j
  unfolding save_day_note
  save_day_note-sends today j day text shown drafted other taken =
      ap (λ d. note_day server d j.day_note j) shown
      ∙ ap (λ n. note_day server (some day) n j) drafted
      ∙ rw other (rw taken refl)

  -- Once the server has taken the note of the shown day, the page shows that day with the note, and
  -- saving again sends nothing and changes nothing.
  pub save_day_note-once :
      (today : String) (j : Journal F) (day : ItineraryDay) (text : String)
      → shown_day today j.picked_day_id j.itinerary ≡ some day
      → j.day_note ≡ some text
      → str_eq text (day.notes otherwise "") ≡ false
      → server.done (patch_day day.id text ∷ j.log) ≡ answered tt
      → let saved = save_day_note server today j in
        (shown_day today saved.picked_day_id saved.itinerary
          ≡ some (record day { notes = some text }))
        × (save_day_note server today saved ≡ saved)
  save_day_note-once today j day text shown drafted other taken =
      let first = save_day_note-sends today j day text shown drafted other taken in
      let shows : shown_day today j.picked_day_id
            (change_days (with_day_note day.id text) j.itinerary)
          ≡ some (record day { notes = some text }) =
        shown_day-change_days day.id text today j.picked_day_id j.itinerary
        ∙ ap (Option.map (with_day_note day.id text)) shown
        ∙ rw (eq_refl day.id) refl in
      rw first (
        shows,
        save_day_note-noted today (noted_in day text j) (record day { notes = some text }) text
            shows drafted (eq_refl text),
      )
