-- ===== src/Base/Shared.antt =====
-- The names that every module shares: the libraries', and those of the tests and the lists.
pub use kxemu.Base.Logic.{ltb, leb, ◌==◌, if◌then◌else◌, Bool-cases, Option-cases, ==_iff, ltb→lt}
pub use kxemu.Base.Lists.{length, get_or, set, replicate, length-append, length-set}
pub use kxemu.Base.Lists.{get_or-set_self, get_or-set_ne}
pub use Prim.Native.Nat.{ℕ, zero, suc, ◌+◌, ◌-◌, ◌*◌, ◌/◌, ◌%◌, ◌^◌, ◌≤◌, ◌<◌, min, max}
pub use Prim.Native.Nat.{bit_and, bit_or, bit_xor}
pub use mathlib.Core.Path.{◌≡◌, refl, sym, ap, ap₂, ◌∙◌}
pub use mathlib.Core.Logic.{◌≢◌, ◌↔◌, ◌⊎◌, inl, inr}
pub use mathlib.Core.Bool.{Bool, true, false, not, ◌&&◌, ◌||◌}
pub use mathlib.Core.Option.{Option, none, some}
pub use mathlib.Core.List.{List, [], ◌∷◌, ◌++◌}
pub use native.Mathlib.Omega.{arith}
