-- ===== src/Prelude.antt =====
-- The names that the modules share: the library's, passed on, and those of the children: Boolean
-- tests on native numbers, lists and arrays measured by them, C integers, and the outcome of a call.
mod Tests
mod Lists
mod Arrays
mod Ints
mod Outcomes
mod Loops
pub use Tests.*
pub use Lists.*
pub use Arrays.*
pub use Ints.*
pub use Outcomes.*
pub use Loops.*
pub use Prim.Native.Nat.{ℕ, zero, suc, ◌+◌, ◌-◌, ◌*◌, ◌/◌, ◌%◌, ◌^◌, ◌≤◌, ◌<◌, min, bit_and}
pub use mathlib.Core.Path.{◌≡◌, refl, sym, ap, ap₂, subst, fun_ext, ◌∙◌}
pub use mathlib.Core.Logic.{◌≢◌, ◌↔◌, ◌⊎◌, inl, inr}
pub use mathlib.Core.Bool.{Bool, true, false, not, ◌&&◌, ◌||◌}
pub use mathlib.Core.Option.{Option, none, some}
pub use mathlib.Core.List.{List, [], ◌∷◌, ◌++◌, map, append_assoc, append-nil}
pub use native.Mathlib.Omega.{arith}
unfoldable pub use native.Mathlib.Decide.{dec_lt, ℕ_discrete}
