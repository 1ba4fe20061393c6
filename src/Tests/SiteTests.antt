-- ===== src/Tests/SiteTests.antt =====
-- The proxy, the confirmation dialog, durations and the packing list on concrete inputs.
use travel_planner.Base.{
  ◌≡◌, refl, true, false, none, some, List, [], ◌∷◌, ◌++◌, String, arith, codes, show,
}
use travel_planner.Reply.{answered, failed}
use travel_planner.Proxy.{Url, pass, redirect, proxy, safe_next, to_login}
use travel_planner.Proxy.Redirects.{proxy-settles}
use travel_planner.Confirm.{ConfirmOptions, initial, Event, asks, confirms, step, run, settle, ask}
use travel_planner.Confirm.Answers.{IsServed, run-IsServed}
use travel_planner.Format.{format_duration, describe_delta, behind}
use travel_planner.Packing.{
  PackingItem, Page, remove, remove_settled, add_item_settled, toggle, toggle_settled,
}
use travel_planner.Packing.Optimism.{toggle_settled-add}

abbrev asked : Url
asked = record { pathname = codes "/trips/1"; next = none; params = "" }

proxy_test : proxy false asked ≡ redirect (to_login asked)
unfolding proxy
proxy_test = refl

proxy-settles_example : proxy false (to_login asked) ≡ pass
proxy-settles_example = proxy-settles false asked (to_login asked) proxy_test

safe_next_test : safe_next (some (codes "//evil.example")) (codes "/trips") ≡ codes "/trips"
unfolding safe_next
safe_next_test = refl

abbrev question : String → ConfirmOptions
question title = record {
  title = title;
  description = none;
  confirm_label = none;
  destructive = some true;
}

abbrev clicks : List Event
clicks = asks (question "Delete day?") ∷ asks (question "Delete trip?") ∷ confirms ∷ []

-- The first question is answered with no when the second one is asked.
run_test : (run clicks initial).resolved ≡ (1, true) ∷ (0, false) ∷ []
unfolding run step ask settle
run_test = refl

initial-IsServed : IsServed initial
initial-IsServed = record { shown = refl; once = λ n. ground arith }

run-IsServed_example : IsServed (run clicks initial)
run-IsServed_example = run-IsServed clicks initial initial-IsServed

format_duration_test : format_duration (some 7199) ≡ codes "1 h 60 min"
unfolding format_duration show
format_duration_test = refl

describe_delta_test : describe_delta (behind 75) ≡ codes "1 h 15 min behind"
unfolding describe_delta show
describe_delta_test = refl

abbrev packing_item : String → String → PackingItem
packing_item id category = record {
  id = id;
  label = id;
  category = category;
  packed = false;
  position = 0;
}

abbrev packing : List PackingItem
packing = packing_item "tent" "Camp" ∷ packing_item "map" "Other" ∷ packing_item "stove" "Camp" ∷ []

abbrev packing_page : Page
packing_page = record {
  items = packing;
  suggestions = [];
  dismissed = [];
  error = none;
  label = "";
}

-- The item that was added while the deletion was under way is gone from the list.
remove_settled_test :
    (remove_settled packing
      (failed none)
      (add_item_settled (answered (packing_item "rope" "Camp")) (remove "map" packing_page))).items
    ≡ packing
unfolding remove_settled add_item_settled remove
remove_settled_test = refl

toggle_settled-add_example :
    (toggle_settled (packing_item "map" "Other") (failed none) (
      add_item_settled
        (answered (packing_item "rope" "Camp"))
        (toggle (packing_item "map" "Other") packing_page))).items
    ≡ packing ++ packing_item "rope" "Camp" ∷ []
toggle_settled-add_example =
    toggle_settled-add (packing_item "map" "Other") (packing_item "rope" "Camp") none packing_page
      ((λ e. absurd (cc)), ((λ e. refl), ((λ e. absurd (cc)), tt))) refl
