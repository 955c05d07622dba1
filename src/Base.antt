-- ===== src/Base.antt =====
-- Names that every component shares: the libraries' names passed on, Boolean tests, lists over the
-- native numbers, byte strings with their order, results, and machine-width arithmetic.
mod Tests
mod Lists
mod Encoding
mod Results
pub mod Int
pub mod Sets
pub mod Maps
pub mod Sorting
pub mod Bits
pub use Tests.*
pub use Lists.*
pub use Results.*
unfoldable pub use Encoding.*
pub use Prim.Native.Nat.{ℕ, zero, suc, ◌+◌, ◌-◌, ◌*◌, ◌/◌, ◌%◌, ◌^◌, ◌≤◌, ◌<◌, min, max}
pub use mathlib.Core.Path.{◌≡◌, refl, sym, ap, ◌∙◌, subst}
pub use mathlib.Core.Logic.{◌≢◌, ◌↔◌, ◌⊎◌, inl, inr}
pub use mathlib.Core.Bool.{Bool, true, false, not, ◌&&◌, ◌||◌}
pub use mathlib.Core.Option.{Option, none, some}
pub use mathlib.Core.List.{List, [], ◌∷◌, ◌++◌, map}
pub use native.Mathlib.Omega.{arith}
