-- ===== src/Base.antt =====
-- What the components share: the libraries' names passed on, Boolean tests on the native numbers,
-- lists measured by them, and facts on division.
mod Tests
mod Lists
mod Div
mod GetOr
mod Ext
pub use Tests.*
pub use Lists.*
pub use Div.*
pub use GetOr.*
pub use Ext.*
pub use Prim.Native.Nat.{ℕ, zero, suc, ◌+◌, ◌-◌, ◌*◌, ◌/◌, ◌%◌, ◌^◌, ◌≤◌, ◌<◌, min, max, bit_and}
pub use mathlib.Core.Path.{◌≡◌, refl, sym, ap, ◌∙◌}
pub use mathlib.Core.Logic.{◌≢◌, ◌↔◌, ◌⊎◌, inl, inr}
pub use mathlib.Core.Bool.{Bool, true, false, not, ◌&&◌, ◌||◌}
pub use mathlib.Core.Option.{Option, none, some}
pub use mathlib.Core.List.{List, [], ◌∷◌, ◌++◌, map}
pub use native.Mathlib.Omega.{arith}
