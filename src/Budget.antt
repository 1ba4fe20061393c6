-- ===== src/Budget.antt =====
-- Expenses: frontend/src/app/trips/[trip_id]/budget/page.tsx.
-- Amounts are of a type `F`, with what the page asks of numbers in `Numbers`. A handler runs from
-- its first statement to its last; `log` holds the calls so far, the latest first, and an answer of
-- the server may depend on all of them.
use travel_planner.Base.{
  ℕ, String, Bool, true, false, not, ◌&&◌, ◌||◌, Option, none, some, List, [], ◌∷◌, ◌++◌, map, keep,
  find, str_eq, trim, or_null, truthy, if◌then◌else◌, ◌otherwise◌, grouped_by, ltb,
}
use travel_planner.Reply.{Reply, answered, failed}
use travel_planner.Types.{Trip, Itinerary, ItineraryDay}
pub mod Ledger
pub mod Days

pub data ExpenseCategory : Type 0 where
  fuel lodging food activities other_expense : ExpenseCategory

pub record Expense (F : Type 0) : Type 0 where
  pub id : String
  pub trip_id : String
  pub itinerary_day_id : Option String
  pub category : ExpenseCategory
  pub amount : F
  pub note : Option String
  pub spent_on : String
  pub created_at : String

pub record Budget (F : Type 0) : Type 0 where
  pub currency : String
  pub vehicle_mpg : F
  pub fuel_price_per_unit : F
  pub distance_miles : F
  pub estimated_fuel : F
  pub fuel_by_day : String → Option F
  pub budget_total : Option F
  pub spent_by_category : ExpenseCategory → F
  pub spent_total : F
  pub remaining : Option F

-- JavaScript's numbers: `Number(s)` where it is finite, `x < 0`, `x === y`.
pub record Numbers (F : Type 0) : Type 0 where
  pub finite : String → Option F
  pub is_negative : F → Bool
  pub same : F → F → Bool

-- A change of the trip's settings.
pub data Patch (F : Type 0) : Type 0 where
  vehicle_mpg fuel_price : F → Patch F
  budget_total : Option F → Patch F

pub data Call (F : Type 0) : Type 0 where
  get_budget : Call F
  patch_trip : Patch F → Call F
  post_expense :
      (category : ExpenseCategory) → (amount : F) → (note day_id : Option String) → Call F
  patch_expense : (id : String) → (amount : F) → Call F
  delete_expense : (id : String) → Call F

pub record Server (F : Type 0) : Type 0 where
  pub budget : List (Call F) → Reply (Budget F)
  pub expense : List (Call F) → Reply (Expense F)
  pub done : List (Call F) → Reply (Unit {0})

pub record Page (F : Type 0) : Type 0 where
  pub budget : Option (Budget F)
  pub expenses : List (Expense F)
  pub days : List ItineraryDay
  pub error : Option String
  pub category : ExpenseCategory
  pub amount : String
  pub note : String
  pub day_id : String
  pub log : List (Call F)

abbrev pub is_expense : {F : Type 0} → String → Expense F → Bool
is_expense id x = str_eq x.id id

module _ {F : Type 0} where
  abbrev pub calls : Call F → Page F → Page F
  calls c p = record p { log = c ∷ p.log }

  abbrev pub failing : Option String → String → Page F → Page F
  failing e text p = record p { error = some (e otherwise text) }

  abbrev pub cleared : Page F → Page F
  cleared p = record p { amount = ""; note = "" }

  module _ (numbers : Numbers F) (server : Server F) where
    abbrev pub reloaded : Reply (Budget F) → String → (Page F → Page F) → Page F → Page F
    reloaded (answered b) text then_do p = then_do (record p { budget = some b })
    reloaded (failed e) text then_do p = failing e text p

    -- `await reloadBudget()`, then what follows; `text` is the message of the handler's catch.
    abbrev pub reload_budget : String → (Page F → Page F) → Page F → Page F
    reload_budget text then_do p =
        reloaded (server.budget (get_budget ∷ p.log)) text then_do (calls get_budget p)

    -- An awaited call whose success changes the page, and is followed by a reload.
    abbrev pub changed : {A : Type 0} → Reply A → String → (A → Page F → Page F) → Page F → Page F
    changed (answered a) text f p = reload_budget text (λ q. q) (f a p)
    changed (failed e) text f p = failing e text p

    pub save_settings : Patch F → Page F → Page F
    save_settings patch p = elim (server.done (patch_trip patch ∷ p.log)) [
      | answered _ ↦
          reload_budget "Could not save" (λ q. record q { error = none })
            (calls (patch_trip patch) p)
      | failed e ↦ failing e "Could not save" (calls (patch_trip patch) p)
    ]

    -- The amount of the form, if it is one.
    abbrev pub amount_of : String → Option F
    amount_of raw = elim (numbers.finite raw) [
      | none ↦ none
      | some value ↦ if numbers.is_negative value then none else some value
    ]

    abbrev pub posted : F → Page F → Call F
    posted value p = post_expense p.category value (or_null (trim p.note)) (or_null p.day_id)

    unfoldable pub add_expense : Page F → Page F
    add_expense p = elim (amount_of p.amount) [
      | none ↦ p
      | some value ↦
          if str_eq (trim p.amount) ""
          then p
          else changed (server.expense (posted value p ∷ p.log)) "Could not add expense"
              (λ x q. cleared (record q { expenses = q.expenses ++ x ∷ [] }))
              (calls (posted value p) p)
    ]

    unfoldable pub update_amount : Expense F → String → Page F → Page F
    update_amount expense raw p = elim (amount_of raw) [
      | none ↦ p
      | some value ↦
          if numbers.same value expense.amount
          then p
          else changed (server.expense (patch_expense expense.id value ∷ p.log))
              "Could not update expense"
              (λ x q. record q {
                expenses = map (λ y. if is_expense x.id y then x else y) q.expenses;
              })
              (calls (patch_expense expense.id value) p)
    ]

    unfoldable pub remove_expense : String → Page F → Page F
    remove_expense id p =
        changed (server.done (delete_expense id ∷ p.log)) "Could not delete expense"
          (λ _ q. record q { expenses = keep (λ x. not (is_expense id x)) q.expenses })
          (calls (delete_expense id) p)

-- The expenses by day, "" standing for none. `earlier` is `localeCompare` giving a negative number.
-- The sort of arrays is stable.
module _ {F : Type 0} (earlier : String → String → Bool) where
  abbrev pub insert_by_date : Expense F → List (Expense F) → List (Expense F)
  insert_by_date x [] = x ∷ []
  insert_by_date x (y ∷ ys) =
      let later = insert_by_date x ys in
      if earlier y.spent_on x.spent_on then y ∷ later else x ∷ y ∷ ys

  abbrev pub by_date : List (Expense F) → List (Expense F)
  by_date [] = []
  by_date (x ∷ xs) = insert_by_date x (by_date xs)

  unfoldable pub groups : List (Expense F) → List (String × List (Expense F))
  groups expenses = grouped_by (λ x. x.itinerary_day_id otherwise "") (by_date expenses)

-- The number of a day, `none` for Infinity.
abbrev pub number_of : List ItineraryDay → String → Option ℕ
number_of days key = elim (find (λ d. str_eq d.id key) days) [
  | none ↦ none
  | some d ↦ some d.day_number
]

-- `na - nb < 0`; the difference of two infinities is NaN, which counts as 0.
abbrev pub is_before : Option ℕ → Option ℕ → Bool
is_before none b = false
is_before (some a) none = true
is_before (some a) (some b) = ltb a b

abbrev pub insert_key : List ItineraryDay → String → List String → List String
insert_key days k [] = k ∷ []
insert_key days k (l ∷ ls) =
    let later = insert_key days k ls in
    if is_before (number_of days l) (number_of days k) then l ∷ later else k ∷ l ∷ ls

unfoldable pub ordered_keys : List ItineraryDay → List String → List String
ordered_keys days [] = []
ordered_keys days (k ∷ ks) = insert_key days k (ordered_keys days ks)
