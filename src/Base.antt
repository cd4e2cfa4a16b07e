-- ===== src/Base.antt =====
-- Names that every module shares: the libraries', passed on, with tests on numbers and texts, the
-- lists over the native numbers, and results of fallible calls.
pub mod Tests
pub mod Lists
pub mod Strings
pub mod Int
pub mod Decimal
pub mod Base64
unfoldable pub use Tests.*
unfoldable pub use Lists.*
unfoldable pub use Strings.*
pub use Prim.Native.Nat.{ℕ, zero, suc, ◌+◌, ◌-◌, ◌*◌, ◌/◌, ◌%◌, ◌^◌, ◌≤◌, ◌<◌}
pub use mathlib.Core.Path.{◌≡◌, refl, sym, ap, ◌∙◌}
pub use mathlib.Core.Logic.{◌≢◌, ◌↔◌, ◌⊎◌, inl, inr}
pub use mathlib.Core.Bool.{Bool, true, false, not, ◌&&◌, ◌||◌}
pub use mathlib.Core.Option.{Option, none, some}
pub use mathlib.Core.List.{List, [], ◌∷◌, ◌++◌, map}
pub use native.Mathlib.Omega.{arith}
