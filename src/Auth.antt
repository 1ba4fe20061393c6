-- ===== src/Auth.antt =====
-- Sign-in state: frontend/src/context/AuthContext.tsx.
-- An async function is cut at its awaits: each event is a section that runs without interruption,
-- and a run is any sequence of events, so that the restoring effect of the mount, sign-in and
-- sign-out interleave. Coordinates are of a type `F`.
use travel_planner.Base.{
  ℕ, String, Bool, true, false, Option, none, some, List, [], ◌∷◌, not, ◌&&◌, if◌then◌else◌,
  ◌otherwise◌, is_none,
}
use travel_planner.Reply.{Reply, answered, failed}
pub mod Session

pub data Units : Type 0 where
  imperial metric : Units

pub record AuthUser (F : Type 0) : Type 0 where
  pub id : String
  pub email : String
  pub display_name : Option String
  pub units : Units
  pub home_address : Option String
  pub home_lat : Option F
  pub home_lng : Option F
  pub default_stop_minutes : ℕ

pub record AuthState (F : Type 0) : Type 0 where
  pub user : Option (AuthUser F)
  pub access_token : Option String
  pub is_loading : Bool

-- The provider with what it writes outside: the API client's token, the profile in local storage,
-- and whether the offline copies were cleared.
pub record Provider (F : Type 0) : Type 0 where
  pub state : AuthState F
  pub token_ref : Option String
  pub logged_in_ref : Bool
  pub cancelled : Bool
  pub api_token : Option String
  pub cached_user : Option (AuthUser F)
  pub offline_cleared : Bool

abbrev pub initial : {F : Type 0} → Option (AuthUser F) → Option String → Provider F
initial cached token = record {
  state = record { user = none; access_token = none; is_loading = true };
  token_ref = none;
  logged_in_ref = false;
  cancelled = false;
  api_token = token;
  cached_user = cached;
  offline_cleared = false;
}

pub data Event (F : Type 0) : Type 0 where
  -- `fetchMe` got a profile.
  me_fetched : AuthUser F → Event F
  -- The restoring effect: the refresh was accepted, threw, or was refused.
  restored : (token : String) → Option (AuthUser F) → Event F
  restore_threw : (online : Bool) → Event F
  restore_refused : Event F
  unmounted : Event F
  -- The last section of `login` and `register`.
  signed_in : (token : String) → AuthUser F → Event F
  token_set : (token : String) → Event F
  user_set : AuthUser F → Event F
  -- The section of `logout` behind its await.
  signed_out : Event F

module _ {F : Type 0} where
  abbrev pub with_token : Option (AuthUser F) → String → Provider F → Provider F
  with_token user token p = record p {
    token_ref = some token;
    api_token = some token;
    state = record { user = user; access_token = some token; is_loading = false };
  }

  abbrev pub with_user : Option (AuthUser F) → Provider F → Provider F
  with_user user p = record p {
    state = record { user = user; access_token = none; is_loading = false };
  }

  -- The profile in local storage; a storage that throws is left out.
  abbrev pub read_cached_user : Provider F → Option (AuthUser F)
  read_cached_user p = p.cached_user

  abbrev pub write_cached_user : Option (AuthUser F) → Provider F → Provider F
  write_cached_user user p = record p { cached_user = user }

  -- The restoring effect may still write.
  abbrev pub is_live : Provider F → Bool
  is_live p = not p.cancelled && not p.logged_in_ref

  abbrev pub cached_offline : Bool → Provider F → Option (AuthUser F)
  cached_offline online p = if online then none else read_cached_user p

  unfoldable pub step : Event F → Provider F → Provider F
  step (me_fetched user) p = write_cached_user (some user) p
  step (restored token user) p = if is_live p then with_token user token p else p
  step (restore_threw online) p = if is_live p then with_user (cached_offline online p) p else p
  step restore_refused p = if is_live p then with_user none p else p
  step unmounted p = record p { cancelled = true }
  step (signed_in token user) p = with_token (some user) token (record p { logged_in_ref = true })
  step (token_set token) p = record p {
    token_ref = some token;
    api_token = some token;
    state = record p.state { access_token = some token };
  }
  step (user_set user) p = record p {
    cached_user = some user;
    state = record p.state { user = some user };
  }
  step signed_out p = record p {
    logged_in_ref = false;
    token_ref = none;
    api_token = none;
    cached_user = none;
    offline_cleared = true;
    state = record { user = none; access_token = none; is_loading = false };
  }

  pub run : List (Event F) → Provider F → Provider F
  run [] p = p
  run (e ∷ es) p = run es (step e p)

  -- `login` and `register`, with nothing between their sections: the answer to the form is a token,
  -- or a refusal with the server's `detail`; then `fetchMe` gives a profile or nothing.
  abbrev profile :
      String → String → Option (AuthUser F) → Provider F → Reply (Unit {0}) × Provider F
  profile no_profile token none p = (failed (some no_profile), p)
  profile no_profile token (some user) p =
      (answered tt, step (signed_in token user) (step (me_fetched user) p))

  abbrev submit :
      String
      → String
      → Reply String
      → Option (AuthUser F)
      → Provider F
      → Reply (Unit {0}) × Provider F
  submit refused no_profile (answered token) me p = profile no_profile token me p
  submit refused no_profile (failed detail) me p = (failed (some (detail otherwise refused)), p)

  unfoldable pub login :
      Reply String → Option (AuthUser F) → Provider F → Reply (Unit {0}) × Provider F
  unfolding step
  login = submit "Login failed" "Failed to fetch user profile after login"

  unfoldable pub register :
      Reply String → Option (AuthUser F) → Provider F → Reply (Unit {0}) × Provider F
  unfolding step
  register = submit "Registration failed" "Failed to fetch user profile after registration"
