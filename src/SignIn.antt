-- ===== src/SignIn.antt =====
-- The forms for signing in and for a new account: frontend/src/app/login/page.tsx and
-- frontend/src/app/register/page.tsx, with the provider of Auth. `valid` is what zod says of the
-- fields; the answers are those to the form and to the profile behind it.
use travel_planner.Base.{
  String, Bool, true, false, not, ◌&&◌, Option, none, some, is_some, List, [], ◌∷◌, ◌otherwise◌,
  if◌then◌else◌, Code, codes,
}
use travel_planner.Reply.{Reply, answered, failed}
use travel_planner.Auth.{AuthUser, Provider, login, register}
use travel_planner.Proxy.{safe_next}
pub mod Return

pub record SignInPage (F : Type 0) : Type 0 where
  -- The parameter `next` of the address.
  pub next : Option Code
  pub server_error : Option String
  pub pending : Bool
  pub login_success : Bool
  pub provider : Provider F
  -- The pages that were opened, the latest first.
  pub pushed : List Code

module _ {F : Type 0} where
  abbrev pub pushes : SignInPage F → SignInPage F
  pushes p = record p { pushed = safe_next p.next (codes "/trips") ∷ p.pushed }

  -- The effect of the login page.
  unfoldable pub navigate : SignInPage F → SignInPage F
  navigate p =
      if p.login_success && not p.provider.state.is_loading && is_some p.provider.state.user
      then pushes p
      else p

  abbrev pub login_settled : Reply (Unit {0}) × Provider F → SignInPage F → SignInPage F
  login_settled (answered done, q) p = record p { provider = q; login_success = true }
  login_settled (failed e, q) p = record p {
    provider = q;
    server_error = some (e otherwise "Login failed");
    pending = false;
  }

  -- `handleSubmit` of the login page, and the effect that follows it.
  unfoldable pub submit_login :
      (valid : Bool) → Reply String → Option (AuthUser F) → SignInPage F → SignInPage F
  submit_login false answer me p = record p { server_error = none }
  submit_login true answer me p = navigate (
      login_settled (login answer me p.provider) (record p { server_error = none; pending = true }))

  abbrev pub register_settled : Reply (Unit {0}) × Provider F → SignInPage F → SignInPage F
  register_settled (answered done, q) p = pushes (record p { provider = q; pending = false })
  register_settled (failed e, q) p = record p {
    provider = q;
    server_error = some (e otherwise "Registration failed");
    pending = false;
  }

  -- `handleSubmit` of the page for a new account.
  unfoldable pub submit_register :
      (valid : Bool) → Reply String → Option (AuthUser F) → SignInPage F → SignInPage F
  submit_register false answer me p = record p { server_error = none }
  submit_register true answer me p =
      register_settled (register answer me p.provider)
        (record p { server_error = none; pending = true })
