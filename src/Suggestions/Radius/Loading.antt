-- ===== src/Suggestions/Radius/Loading.antt =====
-- The page never waits for ever, and every failure shows.
use travel_planner.Base.{
  ℕ, ◌≡◌, refl, ◌⊎◌, inl, inr, true, false, Option, none, some, List, [], ◌∷◌, Code, String,
  Bool-cases, str_eq, eq_iff, ◌∙◌,
}
use travel_planner.Types.{Trip}
use travel_planner.Api.{Failure, Result, ok, err, guardrail}
use travel_planner.Api.Message.{message}
use travel_planner.Discovery.{note_error}
use travel_planner.Suggestions.Radius.{
  Page, RadiusDiscoverResponse, is_radius, discovery_begun, discovery_settled, first_discovery,
  from_cache, load, with_isochrone,
}

module _ {F : Type 0} {G : Type 0} (browser : Failure → Code) where
  discovering-isochrone :
      (g : Option G) (p : Page F G)
      → ((with_isochrone g p).discovering ≡ p.discovering)
        × ((with_isochrone g p).initial_loading ≡ p.initial_loading)
  discovering-isochrone none p = (refl, refl)
  discovering-isochrone (some g) p = (refl, refl)

  first_discovery-ends :
      (discovered : Result (RadiusDiscoverResponse F G)) (p : Page F G)
      → ((first_discovery browser discovered p).discovering ≡ false)
        × ((first_discovery browser discovered p).initial_loading ≡ false)
  unfolding discovery_begun discovery_settled
  first_discovery-ends (ok r) p = discovering-isochrone r.isochrone_geojson _
  first_discovery-ends (err e) p = (refl, refl)

  from_cache-ends :
      (cached discovered : Result (RadiusDiscoverResponse F G)) (p : Page F G)
      → p.discovering ≡ false
      → ((from_cache browser cached discovered p).discovering ≡ false)
        × ((from_cache browser cached discovered p).initial_loading ≡ false)
  from_cache-ends (err e) discovered p idle = first_discovery-ends discovered p
  from_cache-ends (ok r) discovered p idle = by_list r.suggestions refl
    where
      by_list :
          (list : List _)
          → r.suggestions ≡ list
          → ((from_cache browser (ok r) discovered p).discovering ≡ false)
            × ((from_cache browser (ok r) discovered p).initial_loading ≡ false)
      by_list [] none_found = rw none_found (first_discovery-ends discovered p)
      by_list (s ∷ ss) found = rw found (
        (discovering-isochrone r.isochrone_geojson (record p { suggestions = s ∷ ss })).0 ∙ idle,
        refl,
      )

  -- Whatever the server answers to the requests of the first load, the page either goes to the trip
  -- or stops loading and discovering.
  pub load-ends :
      (trip : Result (Trip F)) (cached discovered : Result (RadiusDiscoverResponse F G))
      (p : Page F G)
      → p.discovering ≡ false
      → ((load browser trip cached discovered p).on_trip_page ≡ true)
        ⊎ (((load browser trip cached discovered p).discovering ≡ false)
            × ((load browser trip cached discovered p).initial_loading ≡ false))
  unfolding load
  load-ends (err e) cached discovered p idle = inr (idle, refl)
  load-ends (ok t) cached discovered p idle = elim (Bool-cases (is_radius t.mode)) [
    | inl here ↦ rw here (inr (from_cache-ends cached discovered (record p { trip = some t }) idle))
    | inr other ↦ rw other (inl refl)
  ]

  -- A discovery that fails shows its message, unless it is the error of an exhausted budget: then
  -- the page takes over the instant until which discovery is paused.
  pub discovery_settled-reports :
      (e : Failure) (p : Page F G)
      → ((discovery_settled browser (err e) p).error ≡ some (message browser e))
        ⊎ ((text : Code) × (status : ℕ) × (until : Option String) × (e
              ≡ guardrail text status "budget_exhausted" until)
            × ((discovery_settled browser (err e) p).quota.paused_until ≡ until))
  unfolding discovery_settled note_error
  discovery_settled-reports (guardrail text status code until) p =
      elim (Bool-cases (str_eq code "budget_exhausted")) [
        | inl budget ↦
            let known : code ≡ "budget_exhausted" = (eq_iff code "budget_exhausted").0 budget in
            inr (text, status, until, rw known refl, rw budget refl)
        | inr other ↦ elim (Bool-cases (str_eq code "user_quota")) [
          | inl quota ↦ inl (rw (other, quota) refl)
          | inr unknown ↦ inl (rw (other, unknown) refl)
        ]
      ]
  discovery_settled-reports _ p = inl refl
