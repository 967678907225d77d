-- ===== src/Base.antt =====
-- The names that the other modules share: the libraries', passed on, the tests and arrays of the C
-- code, and how a run of it ends.
mod Tests
mod Lists
mod Control
mod Bits
pub use Tests.*
pub use Lists.*
pub use Control.{
  Stop, panic, fault, unfinished, Run, ok, stop, ◌>>=◌, ◌>>◌, assert, read-some, read-get_or,
  write-set, assert-ok, bind-ok, ok-injective,
}
pub use Bits.{bit_or-shift}
unfoldable pub use Control.{read, write}
pub use Prim.Native.Nat.{
  ℕ, zero, suc, ◌+◌, ◌-◌, ◌*◌, ◌/◌, ◌%◌, ◌^◌, ◌≤◌, ◌<◌, min, bit_and, bit_or, bit_xor,
}
pub use mathlib.Core.Path.{◌≡◌, refl, sym, ap, ◌∙◌, subst}
pub use mathlib.Core.Logic.{◌≢◌, ◌↔◌, ◌⊎◌, inl, inr}
pub use mathlib.Core.Bool.{Bool, true, false, not, ◌&&◌, ◌||◌}
pub use mathlib.Core.Option.{Option, none, some}
pub use mathlib.Core.List.{List, [], ◌∷◌, ◌++◌, map, append_assoc}
pub use native.Mathlib.Omega.{arith}
unfoldable pub use native.Mathlib.Decide.{ℕ_discrete}
