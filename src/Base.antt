-- ===== src/Base.antt =====
-- The names that the other modules share: the libraries' names in use, and those of the children.
mod Tests
mod Lists
mod Outcome
mod Fill
mod Writes
mod Distinct
unfoldable pub use Tests.*
pub use Lists.*
pub use Outcome.*
unfoldable pub use Fill.*
pub use Distinct.*
pub use Writes.*
pub use Prim.Native.Nat.{ℕ, zero, suc, ◌+◌, ◌-◌, ◌*◌, ◌/◌, ◌%◌, ◌^◌, ◌≤◌, ◌<◌, min, max}
pub use mathlib.Core.Path.{◌≡◌, refl, sym, ap, ◌∙◌}
pub use mathlib.Core.Logic.{◌≢◌, ◌↔◌, ◌⊎◌, inl, inr}
pub use mathlib.Core.Bool.{Bool, true, false, not, ◌&&◌, ◌||◌}
pub use mathlib.Core.Option.{Option, none, some}
pub use mathlib.Core.List.{List, [], ◌∷◌, ◌++◌, map}
pub use native.Mathlib.Omega.{arith}
