-- ===== src/Prelude.antt =====
-- The names that the other modules share: the libraries', passed on, and those of the children,
-- on Boolean tests, lists, memory and results that may panic.
mod Tests
mod Lists
mod Memory
mod Outcomes
mod Loops
mod Words
pub use Tests.*
pub use Lists.*
pub use Memory.*
pub use Outcomes.*
unfoldable pub use Loops.{find_first, for_each}
unfoldable pub use Words.{get_int, put_int, get_short, put_short, put_ints}
pub use Words.{
  get_int-put_int_self, get_int-put_int_ne, get_int-cong, put_int_ne, put_short_ne, put_ints_ne,
  get_short-put_short_self, get_short-cong, get_int-put_ints,
}
pub use Loops.{
  IsFirst, NoneIn, find_first-IsFirst, find_first-none, find_first-some, find_first-here,
  find_first_unique, find_first_only, find_first-miss, for_each_lem,
}
pub use Prim.Native.Nat.{ℕ, zero, suc, ◌+◌, ◌-◌, ◌*◌, ◌/◌, ◌%◌, ◌^◌, ◌≤◌, ◌<◌, bit_xor, min, max}
pub use mathlib.Core.Path.{◌≡◌, refl, sym, ap, ap₂, ◌∙◌, fun_ext, subst}
pub use mathlib.Core.Logic.{◌≢◌, ◌↔◌, ◌⊎◌, inl, inr}
pub use mathlib.Core.Bool.{Bool, true, false, not, ◌&&◌, ◌||◌}
pub use mathlib.Core.Option.{Option, none, some}
pub use mathlib.Core.List.{List, [], ◌∷◌, ◌++◌, map, append-nil, append_assoc}
pub use native.Mathlib.Omega.{arith}
