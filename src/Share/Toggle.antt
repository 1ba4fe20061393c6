-- ===== src/Share/Toggle.antt =====
-- The public link.
use travel_planner.Base.{
  ◌≡◌, refl, sym, ap, ◌∙◌, Bool, true, false, not, ◌||◌, Option, none, some, is_some, List, [], ◌∷◌,
  if◌then◌else◌, ◌⊎◌, inl, inr, arith,
}
use travel_planner.Share.{
  ShareInfo, Asked, share, unshare, makes_public, Share, first_load_settled, handle_toggle,
  share_served, share_settled, recap_settled, oldest_settled, Event, loads, toggles, serves,
  toggled, toggles_recap, recap_toggled, step, run,
}

-- What the server holds next to what the dialog shows: the same, or an answer was lost. While a
-- request is under way, it asks for the other of what is shown, and the server holds that as soon
-- as it has served the request.
abbrev pub Agrees : Option Asked → (served lost shown held : Bool) → Type 0
Agrees none served lost shown held = (served ≡ false) × ((lost ≡ true) ⊎ (shown ≡ held))
Agrees (some asked) false lost shown held =
    (makes_public asked ≡ not shown) × ((lost ≡ true) ⊎ (shown ≡ held))
Agrees (some asked) true lost shown held =
    (makes_public asked ≡ not shown) × (held ≡ makes_public asked)

-- With the first request answered: the dialog agrees with the server, has a link exactly if it shows
-- the trip as public, and its button is off exactly while a request is under way.
pub record IsFaithful (s : Share) : Type 0 where
  pub is_loaded : s.first_load ≡ false
  pub is_shown : Agrees s.toggle s.served s.lost s.is_public s.server_public
  pub has_link : is_some s.share_info ≡ s.is_public
  pub is_busy : s.loading ≡ is_some s.toggle

pub refit :
    (s t : Share)
    → s.first_load ≡ t.first_load
    → s.is_public ≡ t.is_public
    → s.share_info ≡ t.share_info
    → s.loading ≡ t.loading
    → Agrees t.toggle t.served t.lost t.is_public t.server_public
    → s.toggle ≡ t.toggle
    → IsFaithful s
    → IsFaithful t
refit s t load public info loading agrees toggle h = record {
  is_loaded = sym load ∙ h.is_loaded;
  is_shown = agrees;
  has_link = sym (ap is_some info) ∙ h.has_link ∙ public;
  is_busy = sym loading ∙ h.is_busy ∙ ap is_some toggle;
}

wanted : (shown : Bool) → makes_public (if shown then unshare else share) ≡ not shown
wanted true = refl
wanted false = refl

asked_lem :
    (toggle : Option Asked) (served lost shown held : Bool)
    → is_some toggle ≡ false
    → Agrees toggle served lost shown held
    → Agrees (some (if shown then unshare else share)) served lost shown held
asked_lem none false lost shown held idle (off, same) = (wanted shown, same)
asked_lem none true lost shown held idle (off, same) = absurd (cc)
asked_lem (some asked) served lost shown held idle h = absurd (cc)

served_lem :
    (toggle : Option Asked) (served lost shown held : Bool) (asked : Asked)
    → toggle ≡ some asked
    → Agrees toggle served lost shown held
    → Agrees toggle true lost shown (makes_public asked)
served_lem none served lost shown held asked e h = absurd (cc)
served_lem (some a) false lost shown held asked e h =
    let same : a ≡ asked = cc in (h.0, rw same refl)
served_lem (some a) true lost shown held asked e h =
    let same : a ≡ asked = cc in (h.0, rw same refl)

held_lem :
    (toggle : Option Asked) (served lost shown held : Bool) (asked : Asked)
    → toggle ≡ some asked
    → served ≡ true
    → Agrees toggle served lost shown held
    → makes_public asked ≡ held
held_lem none served lost shown held asked e on h = absurd (cc)
held_lem (some a) false lost shown held asked e on h = absurd (cc)
held_lem (some a) true lost shown held asked e on h =
    let same : a ≡ asked = cc in rw (← same) (sym h.1)

lost_lem :
    (toggle : Option Asked) (served lost shown held : Bool)
    → Agrees toggle served lost shown held
    → (lost || served ≡ true) ⊎ (shown ≡ held)
lost_lem none served lost shown held (off, inl gone) = inl (ground (arith, gone))
lost_lem none served lost shown held (off, inr same) = inr same
lost_lem (some a) false lost shown held (other, inl gone) = inl (ground (arith, gone))
lost_lem (some a) false lost shown held (other, inr same) = inr same
lost_lem (some a) true lost shown held (other, done) = inl (ground arith)

share_served-IsFaithful :
    (asked : Option Asked) (s : Share)
    → s.toggle ≡ asked
    → IsFaithful s
    → IsFaithful (share_served asked s)
share_served-IsFaithful none s e h = h
share_served-IsFaithful (some asked) s e h =
    refit s _ refl refl refl refl
      (served_lem s.toggle s.served s.lost s.is_public s.server_public asked e h.is_shown) refl h

share_settled-IsFaithful :
    (asked : Option Asked) (info : ShareInfo) (s : Share)
    → s.toggle ≡ asked
    → s.served ≡ true
    → IsFaithful s
    → IsFaithful (share_settled asked true info s)
unfolding share_settled
share_settled-IsFaithful none info s e on h = h
share_settled-IsFaithful (some share) info s e on h = record {
  is_loaded = h.is_loaded;
  is_shown = (
    refl,
    inr (held_lem s.toggle s.served s.lost s.is_public s.server_public share e on h.is_shown),
  );
  has_link = refl;
  is_busy = refl;
}
share_settled-IsFaithful (some unshare) info s e on h = record {
  is_loaded = h.is_loaded;
  is_shown = (
    refl,
    inr (held_lem s.toggle s.served s.lost s.is_public s.server_public unshare e on h.is_shown),
  );
  has_link = refl;
  is_busy = refl;
}

share_failed-IsFaithful :
    (asked : Option Asked) (info : ShareInfo) (s : Share)
    → IsFaithful s
    → IsFaithful (share_settled asked false info s)
unfolding share_settled
share_failed-IsFaithful none info s h = h
share_failed-IsFaithful (some _) info s h = record {
  is_loaded = h.is_loaded;
  is_shown = (refl, lost_lem s.toggle s.served s.lost s.is_public s.server_public h.is_shown);
  has_link = h.has_link;
  is_busy = refl;
}

oldest_settled-IsFaithful :
    (recaps : List Bool) (ok : Bool) (s : Share)
    → IsFaithful s
    → IsFaithful (oldest_settled recaps ok s)
unfolding recap_settled
oldest_settled-IsFaithful [] ok s h = h
oldest_settled-IsFaithful (next ∷ after) true s h = refit s _ refl refl refl refl h.is_shown refl h
oldest_settled-IsFaithful (next ∷ after) false s h = refit s _ refl refl refl refl h.is_shown refl h

if-IsFaithful :
    (b : Bool) (s t : Share)
    → (b ≡ true → IsFaithful s)
    → (b ≡ false → IsFaithful t)
    → IsFaithful (if b then s else t)
if-IsFaithful true s t hs ht = hs refl
if-IsFaithful false s t hs ht = ht refl

handle_toggle-IsFaithful : (s : Share) → IsFaithful s → IsFaithful (handle_toggle s)
handle_toggle-IsFaithful s h =
    if-IsFaithful s.loading s
      (record s { loading = true; toggle = some (if s.is_public then unshare else share) })
      (λ busy. h)
      (λ idle. record {
        is_loaded = h.is_loaded;
        is_shown =
            asked_lem s.toggle s.served s.lost s.is_public s.server_public (sym h.is_busy ∙ idle)
              h.is_shown;
        has_link = h.has_link;
        is_busy = refl;
      })

step-IsFaithful : (e : Event) (s : Share) → IsFaithful s → IsFaithful (step e s)
unfolding step
step-IsFaithful (loads info) s h =
    if-IsFaithful s.first_load (first_load_settled info s) s
      (λ asked. let loaded = h.is_loaded in absurd (cc)) (λ done. h)
step-IsFaithful toggles s h = handle_toggle-IsFaithful s h
step-IsFaithful serves s h = share_served-IsFaithful s.toggle s refl h
step-IsFaithful (toggled true info) s h =
    if-IsFaithful s.served (share_settled s.toggle true info s) s
      (λ on. share_settled-IsFaithful s.toggle info s refl on h) (λ off. h)
step-IsFaithful (toggled false info) s h = share_failed-IsFaithful s.toggle info s h
step-IsFaithful toggles_recap s h = refit s _ refl refl refl refl h.is_shown refl h
step-IsFaithful (recap_toggled ok) s h = oldest_settled-IsFaithful s.recaps ok s h

-- From a dialog whose first request is answered and which is as `IsFaithful` says, whatever the user
-- clicks, the server serves, and the page is told or not told of it, it stays so: with no request
-- under way, it shows the trip as public exactly if the server has it so, unless the page was told
-- of a failure of a request that the server had served and of no success since; it has a link
-- exactly if it shows the trip as public; and its button is off exactly while a request is under way.
pub run-IsFaithful : (es : List Event) (s : Share) → IsFaithful s → IsFaithful (run es s)
unfolding run
run-IsFaithful [] s h = h
run-IsFaithful (e ∷ es) s h = run-IsFaithful es (step e s) (step-IsFaithful e s h)
