-- ===== src/Base.antt =====
-- What the components share: the library names passed on, Boolean tests and conditionals, lists
-- over the native numbers, byte strings with the `<<` of std::stringstream, C++ exceptions as
-- results, and `double` as an interface.
mod Tests
mod Lists
mod Bytes
mod Exceptions
mod Doubles
pub mod Families
pub mod Maps
pub mod Integers
pub use Tests.*
pub use Lists.*
unfoldable pub use Bytes.*
pub use Bytes.Decimals.{pow10, pow10_pos, decimal-append, length-decimal_pos}
pub use Exceptions.*
pub use Doubles.*
pub use Prim.Native.Nat.{ℕ, zero, suc, ◌+◌, ◌-◌, ◌*◌, ◌/◌, ◌%◌, ◌^◌, ◌≤◌, ◌<◌, min}
pub use Prim.Native.String.{String}
pub use mathlib.Core.Path.{◌≡◌, refl, sym, ap, ap₂, ◌∙◌, subst}
pub use mathlib.Core.Logic.{◌≢◌, ◌↔◌, ◌⊎◌, inl, inr}
pub use mathlib.Core.Bool.{Bool, true, false, not, ◌&&◌, ◌||◌}
pub use mathlib.Core.Option.{Option, none, some}
pub use mathlib.Core.List.{List, [], ◌∷◌, ◌++◌, map, append-nil, append_assoc}
pub use native.Mathlib.Omega.{arith}
