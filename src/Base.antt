-- ===== src/Base.antt =====
-- The names that the other modules share: the libraries', passed on, and those of the children.
mod Tests
mod Lists
mod Text
mod Codes
mod Groups
pub mod Int
pub use Tests.*
pub use Lists.*
pub use Codes.{
  Code, code_eq_self, code_eq_iff, strip, starts_with, includes_code, strip-append, is_digit,
  show-digits, show-ne-nil, show_three,
}
pub use Text.{is_space, or_null, truthy, codes}
unfoldable pub use Text.{trim}
unfoldable pub use Codes.{show, code_eq}
pub use Prim.Native.Nat.{ℕ, zero, suc, ◌+◌, ◌-◌, ◌*◌, ◌/◌, ◌%◌, ◌^◌, ◌≤◌, ◌<◌}
pub use Prim.Native.String.{String}
pub use mathlib.Core.Path.{◌≡◌, refl, sym, ap, ◌∙◌}
pub use mathlib.Core.Logic.{◌≢◌, ◌↔◌, ◌⊎◌, inl, inr}
pub use mathlib.Core.Bool.{Bool, true, false, not, ◌&&◌, ◌||◌}
pub use mathlib.Core.Option.{Option, none, some}
pub use mathlib.Core.List.{List, [], ◌∷◌, ◌++◌, map, append-nil, append_assoc}
pub use native.Mathlib.Omega.{arith}
pub use text.Mathlib.Text.{◌==◌ as str_eq}
pub use text.Mathlib.TextEquality.{eq_iff}
pub use text.Mathlib.TextPositions.{eq_refl}
pub use Groups.{tally_groups, IsKeyed, grouped_by_lem}
unfoldable pub use Groups.{grouped_by}
