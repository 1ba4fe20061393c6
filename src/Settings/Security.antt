-- ===== src/Settings/Security.antt =====
-- The ends of a session from the settings.
use travel_planner.Base.{
  ◌==◌, ◌≡◌, refl, String, Bool, true, false, not, ◌||◌, none, List, [], ◌∷◌, length, Bool-cases,
  ◌⊎◌, inl, inr,
}
use travel_planner.Reply.{Reply, answered, failed}
use travel_planner.Auth.{Provider, step, signed_out}
use travel_planner.Settings.{DataTab, sign_out_everywhere, account_deleted, delete_account}

-- Nothing of the user is left in the provider, the API client and the browser's storage.
pub record IsOver {F : Type 0} (p : Provider F) : Type 0 where
  pub no_user : p.state.user ≡ none
  pub no_token : p.state.access_token ≡ none
  pub no_api_token : p.api_token ≡ none
  pub no_ref : p.token_ref ≡ none
  pub no_cache : p.cached_user ≡ none
  pub is_cleared : p.offline_cleared ≡ true

-- The session goes on as it was and the page stays, or it is over and another page opens.
abbrev pub IsAllOrNothing : {F : Type 0} → Provider F → Provider F → List String → Type 0
IsAllOrNothing p q pages =
    ((q ≡ p) × (pages ≡ [])) ⊎ (IsOver q × ((page : String) × (pages ≡ page ∷ [])))

signed_out-IsOver : {F : Type 0} (p : Provider F) → IsOver (step signed_out p)
unfolding step
signed_out-IsOver p = record {
  no_user = refl;
  no_token = refl;
  no_api_token = refl;
  no_ref = refl;
  no_cache = refl;
  is_cleared = refl;
}

sign_out_everywhere-whole :
    {F : Type 0} (sure : Bool) (reply : Reply (Unit {0})) (p : Provider F)
    → let (q, pages) = sign_out_everywhere sure reply p in IsAllOrNothing p q pages
unfolding sign_out_everywhere
sign_out_everywhere-whole false reply p = inl (refl, refl)
sign_out_everywhere-whole true (failed e) p = inl (refl, refl)
sign_out_everywhere-whole true (answered done) p = inr (signed_out-IsOver p, ("/login", refl))

account_deleted-whole :
    {F : Type 0} (reply : Reply (Unit {0})) (tab : DataTab) (p : Provider F)
    → let (after, q, pages) = account_deleted reply tab p in IsAllOrNothing p q pages
unfolding account_deleted
account_deleted-whole (failed e) tab p = inl (refl, refl)
account_deleted-whole (answered done) tab p = inr (signed_out-IsOver p, ("/", refl))

delete_account-whole :
    {F : Type 0} (email_matches : Bool) (reply : Reply (Unit {0})) (tab : DataTab) (p : Provider F)
    → let (after, q, pages) = delete_account email_matches reply tab p in IsAllOrNothing p q pages
unfolding delete_account
delete_account-whole email_matches reply tab p =
    elim (Bool-cases (not email_matches || length tab.password == 0 || tab.deleting)) [
      | inl off ↦ rw off (inl (refl, refl))
      | inr on ↦ rw on (account_deleted-whole reply (record tab { deleting = true }) p)
    ]

-- Signing out everywhere and deleting the account either leave the session as it was and the page
-- open, or leave nothing of the user and open another page, whatever the user and the server say.
pub settings-IsAllOrNothing :
    {F : Type 0} (sure email_matches : Bool) (reply : Reply (Unit {0})) (tab : DataTab)
    → (p : Provider F)
    → IsAllOrNothing p (sign_out_everywhere sure reply p).0 (sign_out_everywhere sure reply p).1
      × IsAllOrNothing p
          (delete_account email_matches reply tab p).1
          (delete_account email_matches reply tab p).2
settings-IsAllOrNothing sure email_matches reply tab p =
    (sign_out_everywhere-whole sure reply p, delete_account-whole email_matches reply tab p)
