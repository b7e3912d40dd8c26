-- ===== src/Common.antt =====
-- Names that every module shares: the libraries', passed on, and those of the children below.
mod Tests
mod Equality
mod Lists
mod Raising
mod Collections
pub mod Int
pub mod Json
pub mod Sorting
pub mod Table
pub use Tests.*
pub use Equality.*
pub use Lists.*
pub use Raising.*
pub use Collections.*
pub use Prim.Native.Nat.{ℕ, zero, suc, ◌+◌, ◌-◌, ◌*◌, ◌/◌, ◌%◌, ◌^◌, ◌≤◌, ◌<◌}
pub use Prim.Native.String.{String}
pub use mathlib.Core.Path.{◌≡◌, refl, sym, ap, ◌∙◌}
pub use mathlib.Core.Logic.{◌≢◌, ◌↔◌, ◌⊎◌, inl, inr}
pub use mathlib.Core.Bool.{Bool, true, false, not, ◌&&◌, ◌||◌}
pub use mathlib.Core.Option.{Option, none, some}
pub use mathlib.Core.List.{List, [], ◌∷◌, ◌++◌, map}
pub use native.Mathlib.Omega.{arith}
