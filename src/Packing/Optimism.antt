-- ===== src/Packing/Optimism.antt =====
-- Optimistic changes of the packing list, and what a failure brings back.
use travel_planner.Base.{
  tally_groups, IsKeyed, grouped_by_lem, ◌≡◌, refl, inl, inr, String, Bool, true, false, Option,
  List, [], ◌∷◌, ◌++◌, eq_refl, ap, ◌∙◌, if◌then◌else◌, All, Bool-cases, tally,
}
use travel_planner.Reply.{answered, failed}
use travel_planner.Packing.{
  PackingItem, Page, is_item, flipped, put_back, toggle, toggle_settled, add_item_settled, grouped,
}

-- The item is the one that the list shows under its id.
abbrev pub IsShown : PackingItem → List PackingItem → Type 0
IsShown item is = All (λ i. is_item item.id i ≡ true → i ≡ item) is

put_back-flipped :
    (item : PackingItem) (is : List PackingItem)
    → IsShown item is
    → put_back item (flipped item.id is) ≡ is
put_back-flipped item [] h = refl
put_back-flipped item (i ∷ is) (here, h) = elim (Bool-cases (is_item item.id i)) [
  | inl it ↦ simp (here it, eq_refl item.id, put_back-flipped item is h)
  | inr other ↦ simp (other, put_back-flipped item is h)
]

-- A tap that the server refuses leaves the items as they were, if the tapped item is as the list
-- shows it.
pub toggle_settled-toggle :
    (item : PackingItem) (e : Option String) (p : Page)
    → IsShown item p.items
    → (toggle_settled item (failed e) (toggle item p)).items ≡ p.items
unfolding toggle_settled toggle
toggle_settled-toggle item e p h = put_back-flipped item p.items h

put_back-append :
    (item : PackingItem) (is js : List PackingItem)
    → put_back item (is ++ js) ≡ put_back item is ++ put_back item js
put_back-append item [] js = refl
put_back-append item (i ∷ is) js =
    ap (λ l. (if is_item item.id i then item else i) ∷ l) (put_back-append item is js)

-- While a tap on an item is under way, another item is added. If the server then refuses the tap,
-- which was on an item as the list shows it, the list has its old items as they were before the tap
-- and behind them the added one.
pub toggle_settled-add :
    (item created : PackingItem) (e : Option String) (p : Page)
    → IsShown item p.items
    → is_item item.id created ≡ false
    → (toggle_settled item (failed e) (add_item_settled (answered created) (toggle item p))).items
      ≡ p.items ++ created ∷ []
unfolding toggle_settled add_item_settled toggle
toggle_settled-add item created e p shown other =
    put_back-append item (flipped item.id p.items) (created ∷ [])
    ∙ rw (put_back-flipped item p.items shown, other) refl

-- The groups hold the items of the list, each as often as the list, and an item stands only under
-- its own category.
pub grouped_lem :
    (items : List PackingItem)
    → ((q : PackingItem → Bool) → tally_groups (λ i. i.category) q (grouped items) ≡ tally q items)
      × IsKeyed (λ i. i.category) (grouped items)
unfolding grouped
grouped_lem items = grouped_by_lem (λ i. i.category) items
