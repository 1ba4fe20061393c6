-- ===== src/Confirm.antt =====
-- The confirmation dialog: frontend/src/components/common/ConfirmProvider.tsx.
-- The promise that the n-th call of `ask` returns is the number n; `resolved` holds the calls of
-- the promises' resolve functions, the latest first.
use travel_planner.Base.{
  ℕ, suc, String, Bool, true, false, Option, none, some, List, [], ◌∷◌, is_some,
}
pub mod Answers

pub record ConfirmOptions : Type 0 where
  pub title : String
  pub description : Option String
  pub confirm_label : Option String
  pub destructive : Option Bool

pub record Dialog : Type 0 where
  pub options : Option ConfirmOptions
  pub resolver : Option ℕ
  pub asked : ℕ
  pub resolved : List (ℕ × Bool)

abbrev pub initial : Dialog
initial = record { options = none; resolver = none; asked = 0; resolved = [] }

-- `resolver.current?.(ok)`
abbrev pub resolve : Bool → Dialog → Dialog
resolve ok d = elim d.resolver [ none ↦ d | some n ↦ record d { resolved = (n, ok) ∷ d.resolved } ]

unfoldable pub ask : ConfirmOptions → Dialog → Dialog
ask opts d = record (resolve false d) {
  options = some opts;
  resolver = some d.asked;
  asked = suc d.asked;
}

unfoldable pub settle : Bool → Dialog → Dialog
settle ok d = record (resolve ok d) { resolver = none; options = none }

-- Escape or a click outside: `onOpenChange`.
abbrev pub open_change : Bool → Dialog → Dialog
open_change true d = d
open_change false d = settle false d

pub data Event : Type 0 where
  asks : ConfirmOptions → Event
  opens : Bool → Event
  cancels confirms : Event

unfoldable pub step : Event → Dialog → Dialog
unfolding settle
step (asks opts) d = ask opts d
step (opens is_open) d = open_change is_open d
step cancels d = settle false d
step confirms d = settle true d

unfoldable pub run : List Event → Dialog → Dialog
run [] d = d
run (e ∷ es) d = run es (step e d)
