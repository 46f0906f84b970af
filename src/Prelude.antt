-- ===== src/Prelude.antt =====
-- The names that the models of the kernel's files share: the libraries', passed on, Boolean
-- tests, tables (C arrays) as functions from indices, lists measured by native numbers, and
-- the 32-bit counters of the kernel.
mod Tests
mod Tables
mod Lists
mod Words
pub mod Int
pub mod Ring
pub mod Count
pub use Tests.*
unfoldable pub use Tables.*
pub use Lists.*
pub use Words.*
pub use Prim.Native.Nat.{ℕ, zero, suc, ◌+◌, ◌-◌, ◌*◌, ◌/◌, ◌%◌, ◌^◌, ◌≤◌, ◌<◌}
pub use mathlib.Core.Path.{◌≡◌, refl, sym, ap, ◌∙◌, subst}
pub use mathlib.Core.Logic.{◌≢◌, ◌↔◌, ◌⊎◌, inl, inr}
pub use mathlib.Core.Bool.{Bool, true, false, ◌&&◌, ◌||◌, not}
pub use mathlib.Core.Option.{Option, none, some}
pub use mathlib.Core.List.{List, [], ◌∷◌, ◌++◌}
pub use native.Mathlib.Omega.{arith}
