-- ===== src/ItineraryPage/Distribute/Sent.antt =====
-- What a distribution sends when the server accepts its calls, and when it refuses one.
use travel_planner.Base.{
  ◌≡◌, refl, String, true, false, Option, some, List, [], ◌∷◌, ◌++◌, map, ◌otherwise◌,
}
use travel_planner.Reply.{Reply, answered, failed}
use travel_planner.Types.{Itinerary, ItineraryDay, ItineraryWaypoint}
use travel_planner.ItineraryPage.{
  Call, get_itinerary, Server, Page, calls, toast, error_toast, load_itinerary, loaded,
}
use travel_planner.ItineraryPage.Distribute.{
  distribute_calls, sends, distribute_over, handle_distribute,
}

-- The log after some calls, the latest first.
abbrev pub logged : List Call → List Call → List Call
logged [] log = log
logged (c ∷ cs) log = logged cs (c ∷ log)

module _ (server : Server) where
  -- The server accepts these calls, one after the other.
  abbrev pub Accepts : List Call → List Call → Type 0
  Accepts [] log = Unit
  Accepts (c ∷ cs) log = (server.send (c ∷ log) ≡ answered tt) × Accepts cs (c ∷ log)

  abbrev after_calls : List Call → Page → Page
  after_calls cs p = record p { log = logged cs p.log }

  sends_accepted :
      (cs : List Call) (p : Page)
      → Accepts cs p.log
      → sends server cs p ≡ (after_calls cs p, answered tt)
  unfolding sends
  sends_accepted [] p ok = refl
  sends_accepted (c ∷ cs) p (yes_c, ok) = rw (yes_c, sends) (sends_accepted cs (calls c p) ok)

  sends_refused :
      (cs : List Call) (c : Call) (rest : List Call) (e : Option String) (p : Page)
      → Accepts cs p.log
      → server.send (c ∷ logged cs p.log) ≡ failed e
      → sends server (cs ++ c ∷ rest) p ≡ (after_calls (cs ++ c ∷ []) p, failed e)
  unfolding sends
  sends_refused [] c rest e p ok refused = rw (refused, sends) refl
  sends_refused (b ∷ cs) c rest e p (yes_b, ok) refused =
      rw (yes_b, sends) (sends_refused cs c rest e (calls b p) ok refused)

  log-loaded : (r : Reply Itinerary) (p : Page) → (loaded r p).log ≡ p.log
  log-loaded (answered it) p = refl
  log-loaded (failed e) p = refl

  log-load_itinerary : (p : Page) → (load_itinerary server p).log ≡ get_itinerary ∷ p.log
  unfolding load_itinerary
  log-load_itinerary p =
      log-loaded (server.itinerary (get_itinerary ∷ p.log)) (calls get_itinerary p)

module _ (server : Server) (p : Page) (it : Itinerary) (d : ItineraryDay) (ds : List ItineraryDay)
    (w : ItineraryWaypoint) (ws : List ItineraryWaypoint) (shown : p.itinerary ≡ some it)
    (has_day : it.days ≡ d ∷ ds) (pending : it.unscheduled_waypoints ≡ w ∷ ws) where
  abbrev planned : List Call
  planned = distribute_calls (d ∷ ds) (map (λ v. v.id) (w ∷ ws))

  abbrev begun : Page
  begun = record p { distributing = true }

  handle_distribute_lem :
      handle_distribute server p
      ≡ record (distribute_over server (d ∷ ds) (map (λ v. v.id) (w ∷ ws)) begun) {
        distributing = false;
      }
  unfolding handle_distribute
  handle_distribute_lem = simp (handle_distribute, shown, pending, has_day)

  -- The board shows a day and an unscheduled stop, and the server accepts the calls of the plan: the
  -- page sends them all, in order, then reloads the itinerary, and is no longer distributing.
  pub handle_distribute-sends :
      Accepts server planned p.log
      → ((handle_distribute server p).log ≡ get_itinerary ∷ logged planned p.log)
        × ((handle_distribute server p).distributing ≡ false)
  unfolding distribute_over
  handle_distribute-sends ok = rw handle_distribute_lem (
      rw (sends_accepted server planned begun ok, distribute_over)
        (log-load_itinerary server (after_calls server planned begun), refl))

  -- The server accepts the calls up to one and refuses that one: no later call is sent, the
  -- itinerary is reloaded, and the page is no longer distributing.
  pub handle_distribute-stops :
      (before : List Call) (c : Call) (after : List Call) (e : Option String)
      → planned ≡ before ++ c ∷ after
      → Accepts server before p.log
      → server.send (c ∷ logged before p.log) ≡ failed e
      → ((handle_distribute server p).log ≡ get_itinerary ∷ logged (before ++ c ∷ []) p.log)
        × ((handle_distribute server p).distributing ≡ false)
  unfolding distribute_over
  handle_distribute-stops before c after e split ok refused = rw handle_distribute_lem (
      rw (split, sends_refused server before c after e begun ok refused, distribute_over)
        (
          log-load_itinerary server (
              toast (error_toast (e otherwise "Failed to distribute stops"))
                (after_calls server (before ++ c ∷ []) begun)),
          refl,
        ))
