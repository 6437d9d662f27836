-- ===== src/Base.antt =====
-- The names that the other modules share: the libraries', passed on, and those of the children.
mod Tests
mod Lists
mod Texts
mod Whole
mod Equality
pub use Tests.*
pub use Lists.*
unfoldable pub use Texts.{text_eq, starts_with, ends_with, is_space, trim_start, trim_end, trim}
unfoldable pub use Texts.{
  strip_slashes, strip_leading_slashes, includes, index_of, is_empty, to_decimal,
}
pub use Texts.{Text, codes, text_eq_iff, text_eq_refl, starts_with-append}
unfoldable pub use Whole.*
unfoldable pub use Equality.*
pub use Prim.Native.Nat.{ℕ, zero, suc, ◌+◌, ◌-◌, ◌*◌, ◌/◌, ◌≤◌, ◌<◌, min}
pub use mathlib.Core.Path.{◌≡◌, refl, sym, ap, ◌∙◌, subst}
pub use mathlib.Core.Logic.{◌≢◌, ◌↔◌, ◌⊎◌, inl, inr}
pub use mathlib.Core.Bool.{Bool, true, false, not, ◌&&◌, ◌||◌}
pub use mathlib.Core.Option.{Option, none, some}
pub use mathlib.Core.List.{List, [], ◌∷◌, ◌++◌, map}
pub use native.Mathlib.Omega.{arith}
unfoldable pub use native.Mathlib.Decide.{ℕ_discrete}
