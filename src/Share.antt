-- ===== src/Share.antt =====
-- Public links: frontend/src/components/trips/ShareModal.tsx.
-- The server serves a request of the switch in one event and its answer arrives, or is lost, in a
-- later one; the other requests are served and answered in one event. Requests under way may be
-- served in any order. As in backend/app/api/sharing.py, POST makes the trip public and DELETE makes
-- it private.
use travel_planner.Base.{
  ℕ, ◌≡◌, ◌≢◌, String, Bool, true, false, not, ◌||◌, Option, none, some, is_some, List, [], ◌∷◌,
  ◌++◌, if◌then◌else◌,
}
pub mod Toggle
pub mod Races

pub record ShareInfo : Type 0 where
  pub share_token : String
  pub share_url : String
  pub is_public : Bool

-- What `handleToggle` has asked for.
pub data Asked : Type 0 where
  share unshare : Asked

-- The dialog, its requests under way, and what the server holds. The request of the switch that is
-- under way is `served` once the server has acted on it, and `lost` records that the page was told
-- of a failure after that, and of no success since.
pub record Share : Type 0 where
  pub share_recap : Bool
  pub is_public : Bool
  pub share_info : Option ShareInfo
  pub loading : Bool
  pub first_load : Bool
  pub toggle : Option Asked
  pub served : Bool
  pub lost : Bool
  pub recaps : List Bool
  pub server_public : Bool
  pub server_recap : Bool

-- The dialog as it opens, with its effect.
unfoldable pub opened : (is_public share_recap : Bool) (token : Option String) → Share
opened is_public share_recap token =
    let shared = if is_public then token else none in
    record {
      share_recap = share_recap;
      is_public = is_public;
      share_info = elim shared [
        | none ↦ none
        | some t ↦ some (record { share_token = t; share_url = ""; is_public = true })
      ];
      loading = false;
      first_load = is_some shared;
      toggle = none;
      served = false;
      lost = false;
      recaps = [];
      server_public = is_public;
      server_recap = share_recap;
    }

-- The effect's own request; its error is dropped.
abbrev pub first_load_settled : Option ShareInfo → Share → Share
first_load_settled none s = record s { first_load = false }
first_load_settled (some info) s = record s {
  first_load = false;
  share_info = some info;
  server_public = true;
}

-- `handleToggle`, whose button is disabled while it loads.
abbrev pub handle_toggle : Share → Share
handle_toggle s =
    if s.loading
    then s
    else record s { loading = true; toggle = some (if s.is_public then unshare else share) }

-- DELETE or POST as the server serves it.
abbrev pub makes_public : Asked → Bool
makes_public share = true
makes_public unshare = false

abbrev pub share_served : Option Asked → Share → Share
share_served none s = s
share_served (some asked) s = record s { served = true; server_public = makes_public asked }

-- The answer to DELETE, or to POST, which brings the link.
unfoldable pub share_settled : Option Asked → (ok : Bool) → ShareInfo → Share → Share
share_settled none ok info s = s
share_settled (some _) false info s = record s {
  loading = false;
  toggle = none;
  served = false;
  lost = s.lost || s.served;
}
share_settled (some unshare) true info s = record s {
  loading = false;
  toggle = none;
  served = false;
  lost = false;
  is_public = false;
  share_info = none;
}
share_settled (some share) true info s = record s {
  loading = false;
  toggle = none;
  served = false;
  lost = false;
  is_public = true;
  share_info = some info;
}

-- `handleRecapToggle` up to its request, which is shown before it is answered.
abbrev pub handle_recap_toggle : Share → Share
handle_recap_toggle s = record s {
  share_recap = not s.share_recap;
  recaps = s.recaps ++ not s.share_recap ∷ [];
}

-- The answer to a request for `next`, with the requests before it and behind it.
unfoldable pub recap_settled :
    (before : List Bool) (next : Bool) (after : List Bool) (ok : Bool) → Share → Share
recap_settled before next after true s = record s { recaps = before ++ after; server_recap = next }
recap_settled before next after false s = record s {
  recaps = before ++ after;
  share_recap = not next;
}

pub data Event : Type 0 where
  loads : Option ShareInfo → Event
  toggles : Event
  serves : Event
  -- What the page is told of its request: a success only after the server has served it, a failure
  -- at any time.
  toggled : (ok : Bool) → ShareInfo → Event
  toggles_recap : Event
  -- The answer to the oldest request for the recap.
  recap_toggled : (ok : Bool) → Event

abbrev pub oldest_settled : List Bool → (ok : Bool) → Share → Share
oldest_settled [] ok s = s
oldest_settled (next ∷ after) ok s = recap_settled [] next after ok s

unfoldable pub step : Event → Share → Share
unfolding share_settled recap_settled
step (loads info) s = if s.first_load then first_load_settled info s else s
step toggles s = handle_toggle s
step serves s = share_served s.toggle s
step (toggled true info) s = if s.served then share_settled s.toggle true info s else s
step (toggled false info) s = share_settled s.toggle false info s
step toggles_recap s = handle_recap_toggle s
step (recap_toggled ok) s = oldest_settled s.recaps ok s

unfoldable pub run : List Event → Share → Share
unfolding step
run [] s = s
run (e ∷ es) s = run es (step e s)
