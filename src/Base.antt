-- ===== src/Base.antt =====
-- The names and lemmas that the other modules share: the libraries', passed on, and those of the
-- children.
mod Tests
mod Lists
mod Outcomes
mod Elems
mod Totals
pub use Tests.*
unfoldable pub use Lists.*
pub use Outcomes.*
unfoldable pub use Elems.*
unfoldable pub use Totals.*
pub use Prim.Native.Nat.{ℕ, zero, suc, ◌+◌, ◌-◌, ◌*◌, ◌/◌, ◌%◌, ◌^◌, ◌≤◌, ◌<◌}
pub use mathlib.Core.Path.{◌≡◌, refl, sym, ap, subst, ◌∙◌, fun_ext}
pub use mathlib.Core.Logic.{◌≢◌, ◌⊎◌, inl, inr}
pub use mathlib.Core.Bool.{Bool, true, false, not, ◌&&◌, ◌||◌}
pub use mathlib.Core.Option.{Option, none, some}
pub use mathlib.Core.List.{List, [], ◌∷◌, ◌++◌, map, append-nil, append_assoc}
pub use native.Mathlib.Omega.{arith}
