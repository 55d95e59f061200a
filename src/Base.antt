-- ===== src/Base.antt =====
-- Names and lemmas that every component shares: the libraries' names passed on, Boolean tests,
-- lists indexed by native numbers, C integers, and the outcome of a C computation.
mod Tests
mod Lists
mod Splits
mod Ints
mod Outcome
pub use Tests.*
unfoldable pub use Lists.*
pub use Splits.*
pub use Ints.*
pub use Outcome.*
pub use Prim.Native.Nat.{ℕ, zero, suc, ◌+◌, ◌-◌, ◌*◌, ◌/◌, ◌%◌, ◌^◌, ◌≤◌, ◌<◌}
pub use mathlib.Core.Path.{◌≡◌, refl, sym, ap, ap₂, subst, ◌∙◌}
pub use mathlib.Core.Logic.{◌≢◌, ◌↔◌, ◌⊎◌, inl, inr}
pub use mathlib.Core.Bool.{Bool, true, false, not, ◌&&◌, ◌||◌}
pub use mathlib.Core.Option.{Option, none, some}
pub use mathlib.Core.List.{List, [], ◌∷◌, ◌++◌, append_assoc, append-nil}
pub use native.Mathlib.Omega.{arith}
