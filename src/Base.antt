-- ===== src/Base.antt =====
-- Names that every module shares: the libraries', and the tests, lists, bytes and results below.
mod Tests
mod Lists
mod Outcome
pub mod Bytes
pub mod Dict
pub mod Sorted
pub mod Sums
pub use Tests.*
pub use Lists.*
pub use Outcome.*
pub use Prim.Native.Nat.{ℕ, zero, suc, ◌+◌, ◌-◌, ◌*◌, ◌/◌, ◌%◌, ◌^◌, ◌≤◌, ◌<◌, min, max}
pub use mathlib.Core.Path.{◌≡◌, refl, sym, ap, ap₂, ◌∙◌, subst}
pub use mathlib.Core.Logic.{◌≢◌, ◌↔◌, ◌⊎◌, inl, inr}
pub use mathlib.Core.Bool.{Bool, true, false, not, ◌&&◌, ◌||◌}
pub use mathlib.Core.Option.{Option, none, some}
pub use mathlib.Core.List.{List, [], ◌∷◌, ◌++◌, map, reverse, append_assoc, append-nil}
pub use native.Mathlib.Omega.{arith}
