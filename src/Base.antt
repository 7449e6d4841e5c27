-- ===== src/Base.antt =====
-- The names that the modules share: the libraries', passed on, and those of the children. The
-- children hold the parts of Go's standard library that the sources use (slices, `strings`,
-- `bytes`, errors), over byte lists and the native numbers.
mod Tests
mod Lists
mod Results
pub mod Table
pub mod Text
pub mod Fields
pub mod Decimal
pub mod BigEndian
pub mod Words
pub mod Sort
pub mod Maps
pub mod Compare
pub mod Adjacent
pub mod Split
pub mod Trim
pub mod Spaces
pub use Tests.*
unfoldable pub use Lists.*
pub use Results.*
pub use Prim.Native.Nat.{ℕ, zero, suc, ◌+◌, ◌-◌, ◌*◌, ◌/◌, ◌%◌, ◌^◌, ◌≤◌, ◌<◌}
pub use mathlib.Core.Path.{◌≡◌, refl, sym, ap, ◌∙◌}
pub use mathlib.Core.Logic.{◌≢◌, ◌↔◌, ◌⊎◌, inl, inr}
pub use mathlib.Core.Bool.{Bool, true, false, not, ◌&&◌, ◌||◌}
pub use mathlib.Core.Option.{Option, none, some}
pub use mathlib.Core.List.{List, [], ◌∷◌, ◌++◌, map, append-nil, append_assoc}
pub use native.Mathlib.Omega.{arith}
