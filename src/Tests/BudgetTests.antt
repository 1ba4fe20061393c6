-- ===== src/Tests/BudgetTests.antt =====
-- Two expenses, and a server that books them.
use travel_planner.Base.{
  ℕ, ◌==◌, ◌≡◌, refl, false, Option, none, some, List, [], ◌∷◌, String, str_eq, if◌then◌else◌,
}
use travel_planner.Reply.{answered}
use travel_planner.Types.{ItineraryDay}
use travel_planner.Budget.{
  Expense, food, Budget, Numbers, Server, Page, budget_total, save_settings, add_expense,
  update_amount, remove_expense,
}
use travel_planner.Budget.Ledger.{IsSound, handlers-IsSound}

abbrev spent : String → Option String → String → Expense ℕ
spent id day on = record {
  id = id;
  trip_id = "t";
  itinerary_day_id = day;
  category = food;
  amount = 12;
  note = none;
  spent_on = on;
  created_at = "";
}

abbrev two_spent : List (Expense ℕ)
two_spent = spent "x" (some "d2") "2026-05-02" ∷ spent "y" none "2026-05-01" ∷ []

-- `-` stands for a text that is no number, and 5 for the amount that `-5` reads as.
abbrev twelves : Numbers ℕ
twelves = record {
  finite = λ raw. if str_eq raw "-" then none else if str_eq raw "-5" then some 5 else some 12;
  is_negative = λ n. n == 5;
  same = λ a b. false;
}

abbrev none_spent : Budget ℕ
none_spent = record {
  currency = "USD";
  vehicle_mpg = 25;
  fuel_price_per_unit = 4;
  distance_miles = 0;
  estimated_fuel = 0;
  fuel_by_day = λ day. none;
  budget_total = none;
  spent_by_category = λ c. 0;
  spent_total = 0;
  remaining = none;
}

abbrev bookkeeper : Server ℕ
bookkeeper = record {
  budget = λ log. answered none_spent;
  expense = λ log. answered (spent "z" none "2026-05-03");
  done = λ log. answered tt;
}

abbrev form : Page ℕ
form = record {
  budget = none;
  expenses = two_spent;
  days = [];
  error = none;
  category = food;
  amount = "12";
  note = "";
  day_id = "";
  log = [];
}

handlers-IsSound_example :
    IsSound twelves bookkeeper (save_settings twelves bookkeeper (budget_total none) form)
    × IsSound twelves bookkeeper (add_expense twelves bookkeeper form)
    × IsSound twelves bookkeeper (update_amount twelves bookkeeper (spent "x" none "") "-5" form)
    × IsSound twelves bookkeeper (remove_expense twelves bookkeeper "x" form)
handlers-IsSound_example =
    handlers-IsSound twelves bookkeeper form (budget_total none) (spent "x" none "") "-5" "x" tt

negative_test : (update_amount twelves bookkeeper (spent "x" none "") "-5" form).log ≡ []
unfolding update_amount
negative_test = refl

abbrev day : String → ℕ → ItineraryDay
day id number = record {
  id = id;
  trip_id = "t";
  day_number = number;
  date = none;
  title = none;
  notes = none;
  waypoints = [];
}
