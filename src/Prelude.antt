-- ===== src/Prelude.antt =====
-- The names that every component shares: the libraries' own, passed on, and those of the children
-- (Boolean tests, lists, equality, dictionaries, text, decimal numerals, sorting).
mod Tests
mod Lists
mod Equality
mod Strings
pub mod Dict
pub mod Decimal
pub mod Sorting
pub mod Parts
pub use Tests.*
pub use Lists.*
unfoldable pub use Equality.*
unfoldable pub use Strings.*
pub use Prim.Native.Nat.{ℕ, zero, suc, ◌+◌, ◌-◌, ◌*◌, ◌/◌, ◌%◌, ◌≤◌, ◌<◌, max, min}
pub use mathlib.Core.Path.{◌≡◌, refl, sym, ap, ◌∙◌}
pub use mathlib.Core.Logic.{◌≢◌, ◌↔◌, ◌⊎◌, inl, inr}
pub use mathlib.Core.Bool.{Bool, true, false, not, ◌&&◌, ◌||◌}
pub use mathlib.Core.Option.{Option, none, some}
pub use mathlib.Core.List.{List, [], ◌∷◌, ◌++◌, map, append-nil, append_assoc}
pub use native.Mathlib.Omega.{arith}
