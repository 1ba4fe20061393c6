-- ===== src/Auth/Session.antt =====
-- Sign-in and sign-out under every interleaving.
use travel_planner.Base.{
  String, true, false, Option, none, some, List, [], ◌∷◌, All, arith, ◌≡◌, ◌≢◌, refl, ◌∙◌, ◌⊎◌, inl,
  inr,
}
use travel_planner.Reply.{Reply, answered, failed}
use travel_planner.Auth.{
  AuthUser, Provider, Event, me_fetched, restored, restore_threw, restore_refused, unmounted,
  signed_in, token_set, user_set, signed_out, step, run, login,
}

module _ {F : Type 0} where
  -- A rendered token is the one that the client sends and that the reference holds.
  pub record IsBacked (p : Provider F) : Type 0 where
    pub by_ref : (t : String) → p.state.access_token ≡ some t → p.token_ref ≡ some t
    pub by_client : (t : String) → p.state.access_token ≡ some t → p.api_token ≡ some t

  abbrev pub IsRestoring : Event F → Type 0
  IsRestoring (signed_in token user) = ⊥
  IsRestoring (token_set token) = ⊥
  IsRestoring (user_set user) = ⊥
  IsRestoring signed_out = ⊥
  IsRestoring _ = Unit

  step-restoring :
      (e : Event F) (p : Provider F)
      → IsRestoring e
      → p.logged_in_ref ≡ true
      → ((step e p).state ≡ p.state)
        × ((step e p).api_token ≡ p.api_token)
        × ((step e p).token_ref ≡ p.token_ref)
        × ((step e p).logged_in_ref ≡ true)
  unfolding step
  step-restoring (me_fetched user) p r h = (refl, refl, refl, h)
  step-restoring (restored token user) p r h = ground arith
  step-restoring (restore_threw online) p r h = ground arith
  step-restoring restore_refused p r h = ground arith
  step-restoring unmounted p r h = (refl, refl, refl, h)
  step-restoring (signed_in token user) p r h = absurd r
  step-restoring (token_set token) p r h = absurd r
  step-restoring (user_set user) p r h = absurd r
  step-restoring signed_out p r h = absurd r

  run-restoring :
      (es : List (Event F)) (p : Provider F)
      → All IsRestoring es
      → p.logged_in_ref ≡ true
      → ((run es p).state ≡ p.state)
        × ((run es p).api_token ≡ p.api_token)
        × ((run es p).token_ref ≡ p.token_ref)
  unfolding run
  run-restoring [] p r h = (refl, refl, refl)
  run-restoring (e ∷ es) p (r, rs) h =
      let (state, api, ref, still) = step-restoring e p r h in
      let (state', api', ref') = run-restoring es (step e p) rs still in
      (state' ∙ state, api' ∙ api, ref' ∙ ref)

  -- Whatever happened before, once a sign-in has completed no outcome of the restoring effect that
  -- settles later (accepted with another session, refused, failed, or unmounted) changes the
  -- rendered user and token or the tokens of the client and of the reference.
  pub signed_in-wins :
      (es : List (Event F)) (p : Provider F) (token : String) (user : AuthUser F)
      → All IsRestoring es
      → ((run es (step (signed_in token user) p)).state
          ≡ record { user = some user; access_token = some token; is_loading = false })
        × ((run es (step (signed_in token user) p)).api_token ≡ some token)
        × ((run es (step (signed_in token user) p)).token_ref ≡ some token)
  unfolding step
  signed_in-wins es p token user rs = run-restoring es (step (signed_in token user) p) rs refl

  ref-step :
      (e : Event F) (p : Provider F) (t : String)
      → (p.state.access_token ≡ some t → p.token_ref ≡ some t)
      → (step e p).state.access_token ≡ some t
      → (step e p).token_ref ≡ some t
  unfolding step
  ref-step (me_fetched user) p t h = h
  ref-step _ p t h = ground arith

  client-step :
      (e : Event F) (p : Provider F) (t : String)
      → (p.state.access_token ≡ some t → p.api_token ≡ some t)
      → (step e p).state.access_token ≡ some t
      → (step e p).api_token ≡ some t
  unfolding step
  client-step (me_fetched user) p t h = h
  client-step _ p t h = ground arith

  -- At every moment of every run of the page, however restoring, sign-in, sign-out and settings
  -- changes interleave, a token that the page renders is the one that the API client sends.
  pub run-IsBacked : (es : List (Event F)) (p : Provider F) → IsBacked p → IsBacked (run es p)
  unfolding run
  run-IsBacked [] p h = h
  run-IsBacked (e ∷ es) p h = run-IsBacked es (step e p) (record {
    by_ref = λ t. ref-step e p t (h.by_ref t);
    by_client = λ t. client-step e p t (h.by_client t);
  })

  -- A sign-in that fails, refused by the server or without a profile, changes nothing. One that
  -- succeeds renders the fetched profile, caches it, and holds the server's token everywhere.
  pub login_outcome :
      (answer : Reply String) (me : Option (AuthUser F)) (p : Provider F)
      → (((login answer me p).0 ≢ answered tt) × ((login answer me p).1 ≡ p))
        ⊎ ((token : String) × (user : AuthUser F) × (answer ≡ answered token)
            × (me ≡ some user)
            × ((login answer me p).0 ≡ answered tt)
            × ((login answer me p).1.state.user ≡ some user)
            × ((login answer me p).1.cached_user ≡ some user)
            × ((login answer me p).1.api_token ≡ some token)
            × ((login answer me p).1.state.access_token ≡ some token))
  unfolding login step
  login_outcome (failed detail) me p = inl (λ e. cc, refl)
  login_outcome (answered token) none p = inl (λ e. cc, refl)
  login_outcome (answered token) (some user) p =
      inr (token, user, refl, refl, refl, refl, refl, refl, refl)

  -- Signing out clears the rendered session, the client's token, the remembered profile and the
  -- offline copies; but if the restoring effect is still waiting and its refresh is then accepted,
  -- the page is signed in again with that token.
  pub signed_out-undone :
      (p : Provider F) (token : String) (user : AuthUser F)
      → p.cancelled ≡ false
      → ((step signed_out p).state
          ≡ record { user = none; access_token = none; is_loading = false })
        × ((step signed_out p).api_token ≡ none)
        × ((step signed_out p).cached_user ≡ none)
        × ((step signed_out p).offline_cleared ≡ true)
        × ((run (signed_out ∷ restored token (some user) ∷ []) p).state
            ≡ record { user = some user; access_token = some token; is_loading = false })
        × ((run (signed_out ∷ restored token (some user) ∷ []) p).api_token ≡ some token)
  unfolding run step
  signed_out-undone p token user mounted = ground arith
