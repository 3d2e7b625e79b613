-- ===== src/Prelude.antt =====
-- The names that the other modules share: those of the libraries, passed on, and those of the
-- children.
pub mod Tests
pub mod Lists
pub mod Int
pub mod Texts
pub mod Minimum
pub mod Decimal
pub mod Sorting
pub use Tests.*
pub use Lists.*
pub use Int.{
  ℤ, pos, negsuc, pos_part, neg_part, ◌≤ℤ◌, ◌<ℤ◌, ltb_ℤ, leb_ℤ, +ℤ_parts, -ℤ_parts, eq_of_parts,
  int_laws, +ℤ_swap, +ℤ_sub_self, +ℤ_comm, ltb_ℤ→lt, ltb_ℤ_false→le, zero-+ℤ,
}
unfoldable pub use Int.{◌+ℤ◌, ◌-ℤ◌, ◌*ℤ◌}
pub use Texts.{Text, codes, is_empty}
unfoldable pub use Texts.{Text_discrete, lower}
unfoldable pub use Decimal.{decimal}
unfoldable pub use Sorting.{filter, sort, ties}
pub use Sorting.{filter-In, filter_empty-All, In-filter, sort-IsFirstMin, sort_nil, sort-filter}
pub use Minimum.{IsOrder, IsFirstMin, IsFirstMin-least, IsFirstMin-All}
pub use Prim.Native.Nat.{ℕ, zero, suc, ◌+◌, ◌-◌, ◌*◌, ◌/◌, ◌%◌, ◌≤◌, ◌<◌}
pub use mathlib.Core.Path.{◌≡◌, refl, sym, ap, subst, ◌∙◌}
pub use mathlib.Core.Logic.{◌≢◌, ◌↔◌, ◌⊎◌, inl, inr, ite, if_pos, if_neg}
pub use mathlib.Core.Bool.{Bool, true, false, not, ◌&&◌, ◌||◌}
pub use mathlib.Core.Option.{Option, none, some}
pub use mathlib.Core.List.{List, [], ◌∷◌, ◌++◌, map}
pub use native.Mathlib.Omega.{arith}
unfoldable pub use native.Mathlib.Decide.{ℕ_discrete}
