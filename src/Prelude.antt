-- ===== src/Prelude.antt =====
-- The names that the other modules share: the libraries', passed on, Boolean tests on numbers,
-- lists with native indices, and weighted sums over the threads of a system.
mod Tests
mod Lists
mod Family
mod Text
mod Copying
mod Circle
pub use Tests.*
pub use Lists.*
pub use Family.*
pub use Circle.*
pub use Copying.{Copied, Copies, copy_loop-Copies}
unfoldable pub use Copying.{copy_loop}
pub use Text.{
  codes, newline, space, strcmp_refl, eq_of_strcmp, strcmp_flip, strcmp_trans, str_eq_iff,
}
unfoldable pub use Text.{strcmp, str_eq, c_string}
pub use Prim.Native.Nat.{ℕ, zero, suc, ◌+◌, ◌-◌, ◌*◌, ◌/◌, ◌%◌, ◌^◌, ◌≤◌, ◌<◌, min}
pub use mathlib.Core.Path.{◌≡◌, refl, sym, ap, ap₂, ◌∙◌, subst}
pub use mathlib.Core.Logic.{◌≢◌, ◌↔◌, ◌⊎◌, inl, inr}
pub use mathlib.Core.Bool.{Bool, true, false, not, ◌&&◌, ◌||◌}
pub use mathlib.Core.Option.{Option, none, some}
pub use mathlib.Core.List.{List, [], ◌∷◌, ◌++◌, map, append-nil, append_assoc}
pub use native.Mathlib.Omega.{arith}
unfoldable pub use native.Mathlib.Decide.{dec_lt, ℕ_discrete}
