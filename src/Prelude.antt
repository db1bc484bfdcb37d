-- ===== src/Prelude.antt =====
-- What every module shares: library names passed on, Boolean tests, lists over the native
-- numbers, machine words with their bytes, and results that may fail or read out of bounds.
mod Tests
mod Lists
mod Results
pub mod Bits
pub mod Xor
pub mod Map
pub mod Words
pub mod Reads
pub mod Writes
pub mod Counting
unfoldable pub use Tests.*
pub use Lists.*
unfoldable pub use Results.*
pub use Prim.Native.Nat.{ℕ, zero, suc, ◌+◌, ◌-◌, ◌*◌, ◌/◌, ◌%◌, ◌^◌, ◌≤◌, ◌<◌, min}
pub use mathlib.Core.Path.{◌≡◌, refl, sym, subst, ap, ap₂, ◌∙◌}
pub use mathlib.Core.Logic.{◌≢◌, ◌↔◌, ◌⊎◌, inl, inr}
pub use mathlib.Core.Bool.{Bool, true, false, not, ◌&&◌, ◌||◌}
pub use mathlib.Core.Option.{Option, none, some}
pub use mathlib.Core.List.{List, [], ◌∷◌, ◌++◌, map, append_assoc, append-nil}
pub use native.Mathlib.Omega.{arith}
