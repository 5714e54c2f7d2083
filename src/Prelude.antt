-- ===== src/Prelude.antt =====
-- Names that the other modules share: the libraries', passed on, and those of the children
-- (Boolean tests, list functions, machine words, results, byte strings).
pub mod Tests
pub mod Lists
pub mod Word
pub mod Outcome
pub mod ByteString
pub mod Map
pub mod Sorting
pub mod Orders
pub mod Gather
pub mod Enumerate
pub mod Utf8
pub use Prim.Native.Nat.{ℕ, zero, suc, ◌+◌, ◌-◌, ◌*◌, ◌/◌, ◌%◌, ◌^◌, ◌≤◌, ◌<◌, min, max}
pub use mathlib.Core.Path.{◌≡◌, refl, sym, ap, ◌∙◌}
pub use mathlib.Core.Logic.{◌≢◌, ◌↔◌, ◌⊎◌, inl, inr}
pub use mathlib.Core.Bool.{Bool, true, false, not, ◌&&◌, ◌||◌}
pub use mathlib.Core.Option.{Option, none, some}
pub use mathlib.Core.List.{List, [], ◌∷◌, ◌++◌, map}
pub use native.Mathlib.Omega.{arith}
pub use Tests.*
pub use Lists.*
pub use Outcome.*
pub use ByteString.{Bytes, bytes_eq, bytes_eq_iff, bytes_eq_refl, bytes_ne, ascii, AreBytes}
