-- ===== src/Base.antt =====
-- Names that every module shares: the libraries', passed on, Boolean tests, and list helpers.
mod Tests
mod Lists
mod Distinct
mod Checks
mod Loops
mod Order
mod Least
pub use Tests.*
pub use Lists.*
pub use Loops.*
unfoldable pub use Checks.{all_pass}
pub use Checks.{check_at, check_at_passes}
unfoldable pub use Distinct.{ids_distinct}
pub use Distinct.{eq_of_ids_distinct}
unfoldable pub use Order.{text_le, then_text, then_number, int_of, insert, sorted}
pub use Order.{text_le-total, text_le_trans, text_le-antisym}
pub use Least.*
pub use Prim.Native.Nat.{ℕ, zero, suc, ◌+◌, ◌-◌, ◌*◌, ◌/◌, ◌%◌, ◌^◌, ◌≤◌, ◌<◌}
pub use Prim.Native.Char.{Char, code}
pub use Prim.Native.String.{String}
pub use mathlib.Core.Path.{◌≡◌, refl, sym, ap, ◌∙◌}
pub use mathlib.Core.Logic.{◌≢◌, ◌↔◌, ◌⊎◌, inl, inr}
pub use mathlib.Core.Bool.{Bool, true, false, not, ◌&&◌, ◌||◌}
pub use mathlib.Core.Option.{Option, none, some}
pub use mathlib.Core.List.{List, [], ◌∷◌, ◌++◌, map, append-nil, append_assoc}
pub use native.Mathlib.Omega.{arith}
unfoldable pub use text.Mathlib.Text.{◌==◌}
pub use text.Mathlib.TextEquality.{eq_iff}
pub use text.Mathlib.TextPositions.{eq_refl}
