-- ===== src/Prelude.antt =====
-- Names that the other modules share: those of the libraries, passed on, Boolean tests on the
-- native numbers, signed integers, and list functions with their laws.
mod Tests
mod Lists
mod Int
mod Clock
mod Paging
pub use Tests.*
pub use Lists.*
pub use Int.*
unfoldable pub use Int.{to_int64}
pub use Paging.*
unfoldable pub use Paging.{page_of}
unfoldable pub use Clock.{Time, sub, milliseconds, of_seconds, whole_seconds}
pub use Prim.Native.Nat.{ℕ, zero, suc, ◌+◌, ◌-◌, ◌*◌, ◌/◌, ◌%◌, ◌^◌, ◌≤◌, ◌<◌}
pub use Prim.Native.String.{String}
pub use mathlib.Core.Path.{◌≡◌, refl, sym, ap, subst, ◌∙◌}
pub use mathlib.Core.Logic.{◌≢◌, ◌↔◌, ◌⊎◌, inl, inr}
pub use mathlib.Core.Bool.{Bool, true, false, not, ◌&&◌, ◌||◌}
pub use mathlib.Core.Option.{Option, none, some}
pub use mathlib.Core.List.{List, [], ◌∷◌, ◌++◌, map}
pub use native.Mathlib.Omega.{arith}
