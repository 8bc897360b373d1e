-- ===== src/Common.antt =====
-- Names and operations that the other modules share: the libraries' names, passed on, Boolean
-- tests and lists over the native numbers, machine words, and the result of a handler that may
-- stop the emulated process.
mod Tests
mod Lists
mod Outcomes
mod Words
mod Scans
pub mod Bytes
pub mod Int
pub mod Tally
pub mod Texts
pub mod Links
pub use Tests.*
pub use Lists.*
pub use Outcomes.*
pub use Words.*
unfoldable pub use Scans.*
pub use Prim.Native.Nat.{ℕ, zero, suc, ◌+◌, ◌-◌, ◌*◌, ◌/◌, ◌%◌, ◌^◌, ◌≤◌, ◌<◌, bit_and, bit_or}
pub use mathlib.Core.Path.{◌≡◌, refl, sym, ap, ap₂, ◌∙◌, fun_ext}
pub use mathlib.Core.Logic.{◌≢◌, ◌↔◌, ◌⊎◌, inl, inr}
pub use mathlib.Core.Bool.{Bool, true, false, not, ◌&&◌, ◌||◌}
pub use mathlib.Core.Option.{Option, none, some}
pub use mathlib.Core.List.{List, [], ◌∷◌, ◌++◌, map}
pub use native.Mathlib.Omega.{arith}
