-- ===== src/Base.antt =====
-- The names that the other modules share: the libraries', passed on, and those of three children.
mod Tests
mod Lists
mod Loops
mod Bits
mod Words
pub mod Maps
pub mod Sums
pub mod Errors
pub mod Fields
pub use Tests.*
pub use Lists.*
pub use Words.*
unfoldable pub use Loops.{while}
unfoldable pub use Bits.{test_bit, set_bit, clear_bit, every}
pub use Loops.{while_rule}
pub use Bits.{at_each, set_bit-lt, clear_bit-lt, test_bit-set_bit, test_bit-clear_bit}
pub use Prim.Native.Nat.{ℕ, zero, suc, ◌+◌, ◌-◌, ◌*◌, ◌/◌, ◌%◌, ◌^◌, ◌≤◌, ◌<◌, min, max}
pub use mathlib.Core.Path.{◌≡◌, refl, sym, ap, ap₂, subst, subst₂, ◌∙◌, fun_ext}
pub use mathlib.Core.Logic.{◌≢◌, ◌↔◌, ◌⊎◌, inl, inr}
pub use mathlib.Core.Bool.{Bool, true, false, not, ◌&&◌, ◌||◌}
pub use mathlib.Core.Option.{Option, none, some}
pub use mathlib.Core.List.{List, [], ◌∷◌, ◌++◌, map, append_assoc, append-nil}
pub use native.Mathlib.Omega.{arith}
