-- ===== src/Prelude.antt =====
-- The names that every module shares: the libraries', passed on, and those of the children: tests,
-- slices as lists, Go's signed integers, and the outcome of a call.
pub mod Tests
pub mod Lists
pub mod Int
pub mod Calls
pub mod Elements
pub mod Equality
pub use Tests.*
pub use Lists.*
unfoldable pub use Int.*
pub use Calls.*
unfoldable pub use Elements.*
pub use Equality.*
pub use Prim.Native.Nat.{ℕ, zero, suc, ◌+◌, ◌-◌, ◌*◌, ◌/◌, ◌%◌, ◌^◌, ◌≤◌, ◌<◌, min, max}
pub use mathlib.Core.Path.{◌≡◌, refl, sym, ap, ◌∙◌, subst}
pub use mathlib.Core.Logic.{◌≢◌, ◌↔◌, ◌⊎◌, inl, inr}
pub use mathlib.Core.Bool.{Bool, true, false, not, ◌&&◌, ◌||◌}
pub use mathlib.Core.Option.{Option, none, some}
pub use mathlib.Core.List.{List, [], ◌∷◌, ◌++◌, map, reverse, append_assoc, append-nil}
pub use native.Mathlib.Omega.{arith}
