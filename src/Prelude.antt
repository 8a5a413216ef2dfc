-- ===== src/Prelude.antt =====
-- The names that every part shares: the library's, passed on, Python's tests on numbers and texts,
-- lists measured by native numbers, integers, and Python's `dict`.
mod Tests
mod Lists
mod Text
pub mod Int
pub mod Dict
pub mod Rows
pub mod Members
pub use Tests.*
pub use Lists.*
pub use Text.{format, join, truthy, truthy?, truthy-str_append}
unfoldable pub use Text.{take_chars}
pub use Prim.Native.Nat.{ℕ, zero, suc, ◌+◌, ◌-◌, ◌*◌, ◌/◌, ◌%◌, ◌^◌, ◌≤◌, ◌<◌, min}
pub use Prim.Native.String.{String}
pub use mathlib.Core.Path.{◌≡◌, refl, sym, ap, ◌∙◌, subst}
pub use mathlib.Core.Logic.{◌≢◌, ◌↔◌, ◌⊎◌, inl, inr}
pub use mathlib.Core.Bool.{Bool, true, false, not, ◌&&◌, ◌||◌}
pub use mathlib.Core.Option.{Option, none, some}
pub use mathlib.Core.List.{List, [], ◌∷◌, ◌++◌, map, append-nil, append_assoc}
pub use native.Mathlib.Omega.{arith}
pub use text.Mathlib.TextEquality.{eq_iff}
pub use text.Mathlib.TextPositions.{eq_refl}
pub use text.Mathlib.Text.{◌==◌ as str_eq}
