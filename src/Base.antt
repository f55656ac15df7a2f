-- ===== src/Base.antt =====
-- Names that the other modules share: the libraries', passed on, and those of five children.
mod Tests
mod Lists
mod Rows
mod Invariants
mod Text
pub use Tests.*
pub use Lists.*
pub use Rows.*
pub use Invariants.*
pub use Text.{contains_text, count_chars, has_text, is_empty, is_empty-append_right, join, ◌<>◌}
unfoldable pub use Text.{replace, take_chars}
pub use Prim.Native.Nat.{ℕ, zero, suc, ◌+◌, ◌-◌, ◌*◌, ◌/◌, ◌%◌, ◌≤◌, ◌<◌}
pub use Prim.Native.String.{String}
pub use mathlib.Core.Path.{◌≡◌, refl, sym, ap, subst, ◌∙◌}
pub use mathlib.Core.Logic.{◌≢◌, ◌↔◌, ◌⊎◌, inl, inr}
pub use mathlib.Core.Bool.{Bool, true, false, ◌&&◌, ◌||◌, not}
pub use mathlib.Core.Option.{Option, none, some}
pub use mathlib.Core.List.{List, Memᴰ, [], ◌∷◌, ◌++◌, map, append-nil}
pub use native.Mathlib.Omega.{arith}
pub use text.Mathlib.TextEquality.{eq_iff}
