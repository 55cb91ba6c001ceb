-- ===== src/Base.antt =====
-- The names that the other modules share: the libraries', passed on, and the helpers of the
-- children, which model the JavaScript values that the gateway is written over (strings compared
-- by `===`, `Map`, `Array.prototype` methods, numeric comparisons).
mod Tests
mod Text
mod Lists
mod Dict
pub use Tests.*
pub use Lists.*
pub use Dict.{lookup-insert, lookup-remove, lookup-retain}
unfoldable pub use Dict.{lookup, insert, remove, retain}
unfoldable pub use Text.{String-discrete}
pub use Text.{eqs, eqs_iff, eqs_refl, same?, eqb?}
pub use Prim.Native.String.{String}
pub use Prim.Native.Nat.{ℕ, zero, suc, ◌+◌, ◌-◌, ◌*◌, ◌/◌, ◌%◌, ◌^◌, ◌≤◌, ◌<◌, min, compare}
pub use mathlib.Core.Path.{◌≡◌, refl, sym, ap, subst, ◌∙◌}
pub use mathlib.Core.Logic.{◌≢◌, ◌↔◌, ◌⊎◌, inl, inr}
pub use mathlib.Core.Bool.{Bool, true, false, not, ◌&&◌, ◌||◌}
pub use mathlib.Core.Option.{Option, none, some}
pub use mathlib.Core.List.{List, [], ◌∷◌, ◌++◌, map}
pub use native.Mathlib.Omega.{arith}
unfoldable pub use native.Mathlib.Decide.{ℕ_discrete}
