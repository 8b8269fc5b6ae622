-- ===== src/Base.antt =====
-- The names that every module shares: those of the libraries, passed on, and the helpers of
-- the children (Boolean tests, lists over native numbers, bit operations, errors).
mod Tests
mod Lists
mod Texts
mod Bytes
mod Ints
mod Maps
pub mod Bits
pub use Tests.*
pub use Lists.*
pub use Ints.*
unfoldable pub use Texts.*
unfoldable pub use Bytes.*
unfoldable pub use Maps.*
pub use Prim.Native.Nat.{ℕ, zero, suc, ◌+◌, ◌-◌, ◌*◌, ◌/◌, ◌%◌, ◌^◌, ◌≤◌, ◌<◌}
pub use mathlib.Core.Path.{◌≡◌, refl, sym, ap, ◌∙◌}
pub use mathlib.Core.Logic.{◌≢◌, ◌↔◌, ◌⊎◌, inl, inr}
pub use mathlib.Core.Bool.{Bool, true, false, ◌&&◌, ◌||◌, not}
pub use mathlib.Core.Option.{Option, none, some}
pub use mathlib.Core.List.{List, [], ◌∷◌, ◌++◌, map}
pub use native.Mathlib.Omega.{arith}
