-- ===== src/Budget/Ledger.antt =====
-- What the page sends.
use travel_planner.Base.{
  ◌≡◌, refl, ◌∙◌, String, false, none, some, ◌∷◌, str_eq, trim, arith, All, Bool-cases,
  Option-cases, inl, inr,
}
use travel_planner.Reply.{Reply, answered, failed}
use travel_planner.Budget.{
  Budget, Numbers, Server, Page, Call, get_budget, patch_trip, post_expense, patch_expense,
  delete_expense, Expense, Patch, calls, failing, reloaded, reload_budget, changed, amount_of,
  posted, save_settings, add_expense, update_amount, remove_expense,
}

module _ {F : Type 0} (numbers : Numbers F) (server : Server F) where
  -- The amount is what some text reads as, which is a finite number, and it is not negative.
  abbrev pub IsAmount : F → Type 0
  IsAmount amount =
      ((raw : String) × (numbers.finite raw ≡ some amount)) × (numbers.is_negative amount ≡ false)

  abbrev pub IsSoundCall : Call F → Type 0
  IsSoundCall (post_expense _ amount _ _) = IsAmount amount
  IsSoundCall (patch_expense _ amount) = IsAmount amount
  IsSoundCall _ = Unit

  abbrev pub IsSound : Page F → Type 0
  IsSound p = All IsSoundCall p.log

  amount_of_sound :
      (raw : String) (value : F) → amount_of numbers server raw ≡ some value → IsAmount value
  amount_of_sound raw value e = elim (Option-cases (numbers.finite raw)) [
    | inl not_a_number ↦ absurd (ground arith)
    | inr (v, is_number) ↦ elim (Bool-cases (numbers.is_negative v)) [
      | inl negative ↦ absurd (ground arith)
      | inr fine ↦
          let both : some v ≡ some value = ground arith in
          let same : v ≡ value = cc in ((raw, is_number ∙ both), rw (← same) fine)
    ]
  ]

  reloaded-IsSound :
      (r : Reply (Budget F)) (text : String) (f : Page F → Page F) (p : Page F)
      → ((q : Page F) → (f q).log ≡ q.log)
      → IsSound p
      → IsSound (reloaded numbers server r text f p)
  reloaded-IsSound (answered b) text f p keeps h = rw (keeps (record p { budget = some b })) h
  reloaded-IsSound (failed e) text f p keeps h = h

  reload_budget-IsSound :
      (text : String) (f : Page F → Page F) (p : Page F)
      → ((q : Page F) → (f q).log ≡ q.log)
      → IsSound p
      → IsSound (reload_budget numbers server text f p)
  reload_budget-IsSound text f p keeps h =
      reloaded-IsSound (server.budget (get_budget ∷ p.log)) text f (calls get_budget p) keeps
        (tt, h)

  changed-IsSound :
      {A : Type 0} (r : Reply A) (text : String) (f : A → Page F → Page F) (p : Page F)
      → ((a : A) (q : Page F) → (f a q).log ≡ q.log)
      → IsSound p
      → IsSound (changed numbers server r text f p)
  changed-IsSound (answered a) text f p keeps h =
      reload_budget-IsSound text (λ q. q) (f a p) (λ q. refl) (rw (keeps a p) h)
  changed-IsSound (failed e) text f p keeps h = h

  save_settings-IsSound :
      (r : Reply (Unit {0})) (p : Page F)
      → IsSound p
      → IsSound (elim r [
        | answered _ ↦
            reload_budget numbers server "Could not save" (λ q. record q { error = none }) p
        | failed e ↦ failing e "Could not save" p
      ])
  save_settings-IsSound (answered _) p h =
      reload_budget-IsSound "Could not save" (λ q. record q { error = none }) p (λ q. refl) h
  save_settings-IsSound (failed e) p h = h

  add_expense-IsSound : (p : Page F) → IsSound p → IsSound (add_expense numbers server p)
  unfolding add_expense
  add_expense-IsSound p h = elim (Option-cases (amount_of numbers server p.amount)) [
    | inl not_an_amount ↦ rw (not_an_amount, add_expense) h
    | inr (value, typed) ↦
        rw (typed, add_expense)
          (elim (Bool-cases (str_eq (trim p.amount) "")) [
            | inl blank ↦ rw blank h
            | inr filled ↦ rw filled (
                changed-IsSound (server.expense (posted numbers server value p ∷ p.log)) _ _
                  (calls (posted numbers server value p) p) (λ x q. refl)
                  (amount_of_sound p.amount value typed, h))
          ])
  ]

  update_amount-IsSound :
      (expense : Expense F) (raw : String) (p : Page F)
      → IsSound p
      → IsSound (update_amount numbers server expense raw p)
  unfolding update_amount
  update_amount-IsSound expense raw p h = elim (Option-cases (amount_of numbers server raw)) [
    | inl not_an_amount ↦ rw (not_an_amount, update_amount) h
    | inr (value, typed) ↦
        rw (typed, update_amount)
          (elim (Bool-cases (numbers.same value expense.amount)) [
            | inl same ↦ rw same h
            | inr other ↦ rw other (
                changed-IsSound (server.expense (patch_expense expense.id value ∷ p.log)) _ _
                  (calls (patch_expense expense.id value) p) (λ x q. refl)
                  (amount_of_sound raw value typed, h))
          ])
  ]

  -- No handler of the page asks the server to book an amount that is negative or that is not read
  -- from a text as a finite number: whatever was typed, a log with sound calls only stays so.
  pub handlers-IsSound :
      (p : Page F) (patch : Patch F) (expense : Expense F) (raw id : String)
      → IsSound p
      → IsSound (save_settings numbers server patch p)
        × IsSound (add_expense numbers server p)
        × IsSound (update_amount numbers server expense raw p)
        × IsSound (remove_expense numbers server id p)
  unfolding save_settings remove_expense
  handlers-IsSound p patch expense raw id h = (
    save_settings-IsSound (server.done (patch_trip patch ∷ p.log)) (calls (patch_trip patch) p)
        (tt, h),
    add_expense-IsSound p h,
    update_amount-IsSound expense raw p h,
    changed-IsSound (server.done (delete_expense id ∷ p.log)) _ _ (calls (delete_expense id) p)
        (λ x q. refl) (tt, h),
  )
