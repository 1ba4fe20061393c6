-- ===== src/SignIn/Return.antt =====
-- Signing in brings the visitor back to the page that was asked for.
use travel_planner.Base.{◌≡◌, none, some, ◌∷◌, Code}
use travel_planner.Auth.{AuthUser}
use travel_planner.SignIn.{SignInPage}

-- Signed in, with the page for `next` opened.
pub record IsBack {F : Type 0} (path : Code) (user : AuthUser F) (p q : SignInPage F) : Type 0 where
  pub is_opened : q.pushed ≡ path ∷ p.pushed
  pub has_user : q.provider.state.user ≡ some user
  pub has_token : q.provider.api_token ≡ q.provider.state.access_token
  pub no_error : q.server_error ≡ none
