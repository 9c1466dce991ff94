-- ===== src/Base.antt =====
-- The names that the parts share: the libraries', passed on, and those of the modules below.
mod Tests
mod Int
mod Lists
mod State
pub mod Sorting
mod Text
pub use Tests.*
pub use Int.*
unfoldable pub use Lists.{sort_by}
pub use Lists.*
pub use State.*
unfoldable pub use Text.{trim_space, to_lower}
pub use Prim.Native.Nat.{ℕ, zero, suc, ◌+◌, ◌-◌, ◌*◌, ◌^◌, ◌≤◌, ◌<◌, min}
pub use Prim.Native.String.{String}
pub use mathlib.Core.Path.{◌≡◌, refl, sym, ap, ◌∙◌}
pub use mathlib.Core.Logic.{◌≢◌, ◌↔◌, ◌⊎◌, inl, inr}
pub use mathlib.Core.Bool.{Bool, true, false, not, ◌&&◌, ◌||◌}
pub use mathlib.Core.Option.{Option, none, some}
pub use mathlib.Core.List.{List, [], ◌∷◌, ◌++◌, map}
pub use native.Mathlib.Omega.{arith}
