-- ===== src/Base.antt =====
-- The names that every module shares: the libraries', passed on, and those of the children.
-- `Tests` has Boolean tests on numbers and texts, `Lists` the list functions over native numbers,
-- `Int` the signed integers of Go's `int64`, `Dict` Go's `map[string]V`, `Result` values with an error.
mod Tests
mod Lists
pub mod Int
pub mod Dict
pub mod Result
pub mod Effect
pub mod Count
pub mod Text
pub use Tests.*
pub use Lists.*
unfoldable pub use Lists.{has_name}
pub use Prim.Native.Nat.{ℕ, zero, suc, ◌+◌, ◌-◌, ◌*◌, ◌/◌, ◌%◌, ◌^◌, ◌≤◌, ◌<◌}
pub use Prim.Native.String.{String}
pub use mathlib.Core.Path.{◌≡◌, refl, sym, ap, subst, ◌∙◌}
pub use mathlib.Core.Logic.{◌≢◌, ◌↔◌, ◌⊎◌, inl, inr}
pub use mathlib.Core.Bool.{Bool, true, false, not, ◌&&◌, ◌||◌}
pub use mathlib.Core.Option.{Option, none, some}
pub use mathlib.Core.List.{List, [], ◌∷◌, ◌++◌, map}
pub use native.Mathlib.Omega.{arith}
pub use text.Mathlib.TextEquality.{eq_iff}
