-- ===== src/Prelude.antt =====
-- The names that the components share: the libraries', passed on, and those of the children.
mod Tests
mod Lists
mod Int
mod Maps
mod Text
mod Sort
mod Order
pub use Tests.*
pub use Lists.*
unfoldable pub use Lists.{select, any, find}
pub use Maps.*
pub use Int.*
unfoldable pub use Int.{◌+ℤ◌, ◌-ℤ◌, ◌*ℤ◌, int64}
unfoldable pub use Text.{contains, show, parse}
pub use Text.{sprint, parse-show, show-injective}
unfoldable pub use Sort.{sort}
pub use Order.{
  codes, lex_less-IsWeakOrder, ltb-IsWeakOrder, less_by, less_by-IsWeakOrder, empty_last,
  empty_last-IsWeakOrder,
}
unfoldable pub use Order.{lex_less}
pub use Sort.{
  sort-perm, sort-All, sort-All_inv, mem-sort, sort-IsSorted, sort_sorted, IsSorted, IsWeakOrder,
}
pub use Prim.Native.Nat.{ℕ, zero, suc, ◌+◌, ◌-◌, ◌*◌, ◌/◌, ◌%◌, ◌≤◌, ◌<◌}
pub use Prim.Native.String.{String}
pub use mathlib.Core.Path.{◌≡◌, refl, sym, ap, ◌∙◌, subst}
pub use mathlib.Core.Logic.{◌≢◌, ◌↔◌, ◌⊎◌, inl, inr}
pub use mathlib.Core.Bool.{Bool, true, false, not, ◌&&◌, ◌||◌}
pub use mathlib.Core.Option.{Option, none, some}
pub use mathlib.Core.List.{List, [], ◌∷◌, ◌++◌, map, Memᴰ, Perm}
pub use native.Mathlib.Omega.{arith}
pub use text.Mathlib.Text.{◌==◌}
pub use text.Mathlib.TextEquality.{eq_iff}
pub use text.Mathlib.TextPositions.{eq_refl}
