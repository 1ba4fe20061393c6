-- ===== src/Packing.antt =====
-- The packing list: the handlers of frontend/src/app/trips/[trip_id]/packing/page.tsx.
-- A handler with an await is two sections, before and behind it, so that others can run between
-- them: `toggle` and `toggle_settled`, `remove` and `remove_settled`. The others are the section
-- behind their await, which alone changes the state.
use travel_planner.Base.{
  grouped_by, ℕ, String, Bool, true, false, not, ◌&&◌, Option, none, some, List, [], ◌∷◌, ◌++◌, map,
  keep, any, str_eq, if◌then◌else◌, ◌otherwise◌, sum_by, trim,
}
use travel_planner.Reply.{Reply, answered, failed}
pub mod Optimism

pub record PackingItem : Type 0 where
  pub id : String
  pub label : String
  pub category : String
  pub packed : Bool
  pub position : ℕ

pub record PackingSuggestion : Type 0 where
  pub template : String
  pub reason : String

pub record Page : Type 0 where
  pub items : List PackingItem
  pub suggestions : List PackingSuggestion
  pub dismissed : List String
  pub error : Option String
  pub label : String

abbrev pub is_item : String → PackingItem → Bool
is_item id i = str_eq i.id id

abbrev pub flipped : String → List PackingItem → List PackingItem
flipped id is = map (λ i. if is_item id i then record i { packed = not i.packed } else i) is

abbrev pub put_back : PackingItem → List PackingItem → List PackingItem
put_back item is = map (λ i. if is_item item.id i then item else i) is

abbrev pub without : String → List PackingItem → List PackingItem
without id is = keep (λ i. not (is_item id i)) is

unfoldable pub toggle : PackingItem → Page → Page
toggle item p = record p { items = flipped item.id p.items }

-- `item` is the one that the tap was on.
unfoldable pub toggle_settled : PackingItem → Reply (Unit {0}) → Page → Page
toggle_settled item (answered _) p = p
toggle_settled item (failed e) p = record p {
  items = put_back item p.items;
  error = some (e otherwise "Could not update item");
}

unfoldable pub remove : String → Page → Page
remove id p = record p { items = without id p.items }

-- `before` are the items of the render in which the handler began.
unfoldable pub remove_settled : (before : List PackingItem) → Reply (Unit {0}) → Page → Page
remove_settled before (answered _) p = p
remove_settled before (failed e) p = record p {
  items = before;
  error = some (e otherwise "Could not delete item");
}

-- The body of the request of `addItem`, if the label is not blank.
pub add_item_body : (label category : String) → Option (String × String)
add_item_body label category =
    if str_eq (trim label) ""
    then none
    else some (trim label, if str_eq (trim category) "" then "Other" else trim category)

unfoldable pub add_item_settled : Reply PackingItem → Page → Page
add_item_settled (answered created) p = record p { items = p.items ++ created ∷ []; label = "" }
add_item_settled (failed e) p = record p { error = some (e otherwise "Could not add item") }

unfoldable pub add_template_settled : String → Reply (List PackingItem) → Page → Page
add_template_settled name (answered items) p = record p {
  items = items;
  suggestions = keep (λ s. not (str_eq s.template name)) p.suggestions;
}
add_template_settled name (failed e) p = record p {
  error = some (e otherwise "Could not add template");
}

unfoldable pub dismiss : String → Page → Page
dismiss template p = record p { dismissed = p.dismissed ++ template ∷ [] }

pub visible_suggestions : Page → List PackingSuggestion
visible_suggestions p = keep (λ s. not (any (str_eq s.template) p.dismissed)) p.suggestions

-- The items by category, each category once, in the order of their first items. The page then
-- sorts the categories by the browser's collation.
pub grouped : List PackingItem → List (String × List PackingItem)
grouped items = grouped_by (λ i. i.category) items
