-- ===== src/Prelude.antt =====
-- The names that the other modules share: the libraries', passed on, and those of the children.
pub mod Tests
pub mod Lists
pub mod Sort
pub mod Texts
pub mod Sets
pub mod Dicts
pub use Tests.{
  split_and_not, ltb, leb, ◌==◌, if◌then◌else◌, ltb→lt, lt→ltb, leb→le, Bool-cases, Option-cases,
  tests, is_some, some_eq,
}
pub use Lists.{
  length, length-append, length-drop, drop-drop, drop-append, take, drop, All, All-append, member,
  any, all, sum,
}
pub use Sort.{
  IsSorted, any-sort_by, length-sort_by, sort_by_of_IsSorted, All-sort_by, All-take, All-select,
  All-delete_if, sort_by-IsSorted,
}
unfoldable pub use Sort.{select, insert_by, sort_by}
unfoldable pub use Lists.{delete_if}
pub use Texts.{eq_iff, codes, join_text}
unfoldable pub use Texts.{text_len, ◌=?◌, one_of, text_le, is_blank}
pub use Dicts.{Dict}
unfoldable pub use Dicts.{lookup}
unfoldable pub use Sets.{without_repeats, sorted_set}
pub use Sets.{All-sorted_set}
pub use Prim.Native.Nat.{ℕ, zero, suc, ◌+◌, ◌-◌, ◌*◌, ◌/◌, ◌%◌, ◌^◌, ◌≤◌, ◌<◌, min, max}
pub use Prim.Native.String.{String}
pub use mathlib.Core.Path.{◌≡◌, refl, sym, ap, ◌∙◌, subst}
pub use mathlib.Core.Logic.{◌≢◌, ◌↔◌, ◌⊎◌, inl, inr}
pub use mathlib.Core.Bool.{Bool, true, false, not, ◌&&◌, ◌||◌}
pub use mathlib.Core.Option.{Option, none, some}
pub use mathlib.Core.List.{List, [], ◌∷◌, ◌++◌, map}
pub use native.Mathlib.Omega.{arith}
