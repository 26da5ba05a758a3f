-- ===== src/Prelude.antt =====
-- The names that the other modules share: the libraries', passed on, and those of the children.
mod Tests
mod Lists
mod Tables
pub mod Int
pub mod Words
pub mod Results
pub mod Maps
pub mod Percent
pub use Tests.*
pub use Lists.*
unfoldable pub use Tables.{find_first, replace_first, remove_first, sum_of}
pub use Tables.{
  find_first-has, find_first-All, find_first-replace_first, sum_of-append, sum_of-replace_first,
  sum_of-remove_first, find_first-replace_first_other, find_first-remove_first_other,
}
pub use Prim.Native.Nat.{ℕ, zero, suc, ◌+◌, ◌-◌, ◌*◌, ◌/◌, ◌%◌, ◌^◌, ◌≤◌, ◌<◌, min, max}
pub use mathlib.Core.Path.{◌≡◌, refl, sym, ap, ◌∙◌, subst}
pub use mathlib.Core.Logic.{◌≢◌, ◌↔◌, ◌⊎◌, inl, inr}
pub use mathlib.Core.Bool.{Bool, true, false, not, ◌&&◌, ◌||◌}
pub use mathlib.Core.Option.{Option, none, some}
pub use mathlib.Core.List.{List, [], ◌∷◌, ◌++◌, map}
pub use native.Mathlib.Omega.{arith}
