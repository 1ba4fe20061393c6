-- ===== src/Settings.antt =====
-- Account settings: frontend/src/app/settings/page.tsx, with the provider of the sign-in state.
-- An async handler is cut at its await; the section behind it takes the outcome of the request.
-- Coordinates are of a type `F`.
use travel_planner.Base.{
  ℕ, ◌==◌, ltb, leb, String, Bool, true, false, not, ◌&&◌, ◌||◌, Option, none, some, List, [], ◌∷◌,
  ◌otherwise◌, if◌then◌else◌, Code, code_eq, show, length, trim, or_null, truthy,
}
use travel_planner.Reply.{Reply, answered, failed}
use travel_planner.Auth.{
  Units, AuthUser, AuthState, Provider, step, token_set, user_set, signed_out,
}
use travel_planner.TripPage.{AddressSelection}
pub mod Preferences
pub mod Security

-- `Number(text)`: a whole number that is not negative, or anything else.
pub data Number : Type 0 where
  whole : ℕ → Number
  other : Number

-- The body of PATCH /auth/me: a field that is left out stays as it is.
pub record Patch (F : Type 0) : Type 0 where
  pub display_name : Option (Option String)
  pub units : Option Units
  pub default_stop_minutes : Option ℕ
  -- The three fields of the home address, which are sent together.
  pub home : Option (Option (String × F × F))

pub record ProfileTab : Type 0 where
  pub name : String
  pub saving : Bool

pub record PreferencesTab (F : Type 0) : Type 0 where
  pub units : Units
  pub stop_minutes : Code
  pub home : Option (AddressSelection F)
  pub saving : Bool

pub record SecurityTab : Type 0 where
  pub current : Code
  pub next : Code
  pub again : Code
  pub saving : Bool

pub record DataTab : Type 0 where
  pub dialog_open : Bool
  pub password : Code
  pub deleting : Bool

-- `changePassword` up to its request: the two passwords that it posts.
unfoldable pub password_request : SecurityTab → Option (Code × Code)
password_request tab =
    if ltb (length tab.next) 8
    then none
    else if not (code_eq tab.next tab.again)
    then none
    else some (tab.current, tab.next)

module _ {F : Type 0} where
  unfoldable pub profile_tab : AuthUser F → ProfileTab
  profile_tab user = record { name = user.display_name otherwise ""; saving = false }

  -- What the profile's form sends.
  unfoldable pub profile_patch : ProfileTab → Patch F
  profile_patch tab = record {
    display_name = some (or_null (trim tab.name));
    units = none;
    default_stop_minutes = none;
    home = none;
  }

  -- The address that the preferences start with: all three fields, and a text that is not empty.
  abbrev pub home_of : Option String → Option F → Option F → Option (AddressSelection F)
  home_of (some address) (some lat) (some lng) =
      if truthy (some address)
      then some (record { address = address; lat = lat; lng = lng; place_id = none })
      else none
  home_of _ _ _ = none

  unfoldable pub preferences_tab : AuthUser F → PreferencesTab F
  preferences_tab user = record {
    units = user.units;
    stop_minutes = show user.default_stop_minutes;
    home = home_of user.home_address user.home_lat user.home_lng;
    saving = false;
  }

  abbrev pub home_fields : Option (AddressSelection F) → Option (String × F × F)
  home_fields none = none
  home_fields (some home) = some (home.address, home.lat, home.lng)

  -- What the preferences' form sends, if its number may be sent.
  abbrev pub patch_of : PreferencesTab F → Number → Option (Patch F)
  patch_of tab other = none
  patch_of tab (whole minutes) =
      if ltb minutes 1 || ltb 1440 minutes
      then none
      else some (record {
        display_name = none;
        units = some tab.units;
        default_stop_minutes = some minutes;
        home = some (home_fields tab.home);
      })

  -- `number` is JavaScript's `Number` on a text.
  unfoldable pub preferences_patch : (number : Code → Number) → PreferencesTab F → Option (Patch F)
  preferences_patch number tab = patch_of tab (number tab.stop_minutes)

  -- `save` of either tab behind its request: `onSaved` is `setUser`.
  unfoldable pub saved : Reply (AuthUser F) → Provider F → Provider F
  saved (answered user) p = step (user_set user) p
  saved (failed e) p = p

  unfoldable pub password_changed :
      Reply String → SecurityTab → Provider F → SecurityTab × Provider F
  password_changed (answered token) tab p =
      (record { current = []; next = []; again = []; saving = false }, step (token_set token) p)
  password_changed (failed e) tab p = (record tab { saving = false }, p)

  -- The whole handler; `post` is the answer to the request.
  unfoldable pub submit_password :
      (post : Code × Code → Reply String) → SecurityTab → Provider F → SecurityTab × Provider F
  submit_password post tab p = elim (password_request tab) [
    | none ↦ (tab, p)
    | some passwords ↦ password_changed (post passwords) (record tab { saving = true }) p
  ]

  -- `signOutEverywhere`, with the answers to the question and to the request; the pages that it
  -- opens.
  unfoldable pub sign_out_everywhere :
      (sure : Bool) → Reply (Unit {0}) → Provider F → Provider F × List String
  sign_out_everywhere false reply p = (p, [])
  sign_out_everywhere true (answered done) p = (step signed_out p, "/login" ∷ [])
  sign_out_everywhere true (failed e) p = (p, [])

  -- `deleteAccount` behind its request.
  unfoldable pub account_deleted :
      Reply (Unit {0}) → DataTab → Provider F → DataTab × Provider F × List String
  account_deleted (answered done) tab p = (tab, step signed_out p, "/" ∷ [])
  account_deleted (failed e) tab p = (record tab { deleting = false }, p, [])

  -- The button "Delete account" is disabled unless the typed address is the user's.
  unfoldable pub delete_account :
      (email_matches : Bool) (reply : Reply (Unit {0}))
      → DataTab
      → Provider F
      → DataTab × Provider F × List String
  delete_account email_matches reply tab p =
      if not email_matches || length tab.password == 0 || tab.deleting
      then (tab, p, [])
      else account_deleted reply (record tab { deleting = true }) p
