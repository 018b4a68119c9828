-- ===== src/Shared.antt =====
-- What the components share: library names passed on, Boolean tests on the native numbers,
-- lists measured by them, and the arithmetic of `size_t`.
mod Tests
mod Lists
mod Ranges
mod Size
mod Predicates
mod Faults
mod Text
mod Decimal
pub mod Assertions
pub use Tests.*
pub use Lists.*
unfoldable pub use Ranges.*
unfoldable pub use Text.*
unfoldable pub use Decimal.*
pub use Faults.*
pub use Predicates.*
pub use Size.*
pub use Prim.Native.Nat.{ℕ, zero, suc, ◌+◌, ◌-◌, ◌*◌, ◌/◌, ◌%◌, ◌^◌, ◌≤◌, ◌<◌, min}
pub use mathlib.Core.Path.{◌≡◌, refl, sym, ap, ap₂, subst, ◌∙◌}
pub use mathlib.Core.Logic.{◌≢◌, ◌↔◌, ◌⊎◌, inl, inr}
pub use mathlib.Core.Bool.{Bool, true, false, not, ◌&&◌, ◌||◌}
pub use mathlib.Core.Option.{Option, none, some}
pub use mathlib.Core.List.{List, [], ◌∷◌, ◌++◌, append-nil, append_assoc}
pub use native.Mathlib.Omega.{arith}
