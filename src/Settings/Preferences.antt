-- ===== src/Settings/Preferences.antt =====
-- Preferences that come back.
use travel_planner.Base.{
  ℕ, ◌≡◌, ◌≤◌, refl, sym, ap, Bool, true, false, ◌||◌, Option, none, some, ◌otherwise◌, ltb, arith,
  if◌then◌else◌, truthy, Bool-cases, inl, inr, Code, show,
}
use travel_planner.Reply.{answered}
use travel_planner.Auth.{Units, AuthUser, Provider, step}
use travel_planner.TripPage.{AddressSelection}
use travel_planner.Settings.{
  Number, whole, other, Patch, PreferencesTab, preferences_tab, home_fields, patch_of,
  preferences_patch, saved,
}

-- The fields of PATCH /auth/me as the server stores them.
unfoldable pub patched : {F : Type 0} → Patch F → AuthUser F → AuthUser F
patched patch user = record user {
  display_name = patch.display_name otherwise user.display_name;
  units = patch.units otherwise user.units;
  default_stop_minutes = patch.default_stop_minutes otherwise user.default_stop_minutes;
  home_address = elim patch.home [
    | none ↦ user.home_address
    | some none ↦ none
    | some (some (address, lat, lng)) ↦ some address
  ];
  home_lat = elim patch.home [
    | none ↦ user.home_lat
    | some none ↦ none
    | some (some (address, lat, lng)) ↦ some lat
  ];
  home_lng = elim patch.home [
    | none ↦ user.home_lng
    | some none ↦ none
    | some (some (address, lat, lng)) ↦ some lng
  ];
}

-- The selection without the place that Google gave it.
abbrev pub without_place : {F : Type 0} → Option (AddressSelection F) → Option (AddressSelection F)
without_place none = none
without_place (some home) = some (record home { place_id = none })

abbrev pub has_address : {F : Type 0} → Option (AddressSelection F) → Bool
has_address none = true
has_address (some home) = truthy (some home.address)

some-injective : {A : Type 0} {x y : A} → some x ≡ some y → x ≡ y
some-injective {x = x} e = ap (λ o. o otherwise x) e

-- What is sent is the content of the tab, with a number in its bounds.
patch_of-sent :
    {F : Type 0} (tab : PreferencesTab F) (n : Number) (patch : Patch F)
    → patch_of tab n ≡ some patch
    → (m : ℕ) × (n ≡ whole m)
      × (1 ≤ m)
      × (m ≤ 1440)
      × (patch ≡ record {
        display_name = none;
        units = some tab.units;
        default_stop_minutes = some m;
        home = some (home_fields tab.home);
      })
patch_of-sent tab other patch e = absurd (cc)
patch_of-sent tab (whole m) patch e = elim (Bool-cases (ltb m 1 || ltb 1440 m)) [
  | inl out ↦ let none_sent : none ≡ some patch = rw out at e in absurd (cc)
  | inr within ↦
      let all_sent = rw within at e in
      (m, refl, ground (arith, within), ground (arith, within), sym (some-injective all_sent))
]

-- A home address that is stored is read again.
home-round_trip :
    {F : Type 0} (home : Option (AddressSelection F)) (units : Units) (m : ℕ) (user : AuthUser F)
    → has_address home ≡ true
    → let stored =
        patched
          (record {
            display_name = none;
            units = some units;
            default_stop_minutes = some m;
            home = some (home_fields home);
          })
          user in
      preferences_tab stored
      ≡ record { units = units; stop_minutes = show m; home = without_place home; saving = false }
unfolding patched preferences_tab
home-round_trip none units m user address = refl
home-round_trip (some home) units m user address =
    ap
      (λ (b : Bool). record {
        units = units;
        stop_minutes = show m;
        home = if b then some (record home { place_id = none }) else none;
        saving = false;
      })
      address

-- With a home address that is not the empty text, if there is one: preferences that may be sent and
-- that the server stores are in the provider and in the browser's storage, and are what the tab
-- shows when it is opened again, but for the place of the home address and the spelling of the
-- minutes, whose text is then that of the number that was read; and this number is between 1 and
-- 1440.
pub preferences_patch-round_trip :
    {F : Type 0} (number : Code → Number) (tab : PreferencesTab F) (patch : Patch F)
    (user : AuthUser F) (p : Provider F)
    → preferences_patch number tab ≡ some patch
    → has_address tab.home ≡ true
    → let q = saved (answered (patched patch user)) p in
      (q.state.user ≡ some (patched patch user))
      × (q.cached_user ≡ some (patched patch user))
      × (preferences_tab (patched patch user) ≡ record tab {
        stop_minutes = show (patched patch user).default_stop_minutes;
        home = without_place tab.home;
        saving = false;
      })
      × (number tab.stop_minutes ≡ whole (patched patch user).default_stop_minutes)
      × (1 ≤ (patched patch user).default_stop_minutes)
      × ((patched patch user).default_stop_minutes ≤ 1440)
unfolding preferences_patch saved preferences_tab patched step
preferences_patch-round_trip number tab patch user p sent address =
    let (m, is_read, low, high, content) = patch_of-sent tab (number tab.stop_minutes) patch sent in
    rw content (refl, refl, home-round_trip tab.home tab.units m user address, is_read, low, high)
