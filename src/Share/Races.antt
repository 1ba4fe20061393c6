-- ===== src/Share/Races.antt =====
-- Requests of the sharing dialog that overlap.
use travel_planner.Base.{◌≡◌, refl, String, Bool, true, false, not, Option, some, [], ◌∷◌}
use travel_planner.Share.{
  ShareInfo, opened, toggles, serves, toggled, loads, toggles_recap, recap_toggled, share_settled,
  recap_settled, step, run,
}

-- The dialog of a public trip asks for its link when it opens. A link that is switched off before
-- that request is served is switched on again by it: the server publishes the trip, the dialog
-- shows it as private.
pub opened-republished :
    (recap : Bool) (token : String) (info info' : ShareInfo)
    → let s =
        run
          (toggles ∷ serves ∷ toggled true info ∷ loads (some info') ∷ [])
          (opened true recap (some token)) in
      (s.is_public ≡ false) × (s.server_public ≡ true)
unfolding run step share_settled opened
opened-republished recap token info info' = (refl, refl)

-- In a dialog that has just opened, as on the server: two clicks on the switch of the recap, whose
-- requests are both refused, leave the switch the other way than the server.
pub recap_toggle-refused_twice :
    (is_public recap : Bool) (token : Option String)
    → let s =
        run
          (toggles_recap ∷ toggles_recap ∷ recap_toggled false ∷ recap_toggled false ∷ [])
          (opened is_public recap token) in
      (s.recaps ≡ []) × (s.server_recap ≡ recap) × (s.share_recap ≡ not recap)
unfolding run step recap_settled opened
recap_toggle-refused_twice is_public true token = (refl, refl, refl)
recap_toggle-refused_twice is_public false token = (refl, refl, refl)
