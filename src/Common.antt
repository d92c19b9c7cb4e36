-- ===== src/Common.antt =====
-- The names that the other modules share: the libraries', passed on, and those of the children.
mod Tests
mod Lists
mod Strings
mod Lines
mod Sort
mod Canonical
mod Dicts
pub mod Int
pub use Tests.*
pub use Lists.*
pub use Strings.*
unfoldable pub use Strings.{
  split_on, starts_with, ends_with, strip_prefix, text_compare, contains, join,
}
pub use Lines.{
  strip, split_words, splitlines, file_lines, split_once, is_space, is_line_break, split_where,
}
unfoldable pub use Lines.{
  strip, split_words, splitlines, file_lines, split_once, is_space, is_line_break, split_where,
}
pub use Sort.*
unfoldable pub use Sort.{insert_by, sort_by}
pub use Canonical.*
pub use Dicts.*
unfoldable pub use Dicts.{get, put, has_key}
unfoldable pub use Strings.{◌==◌}
pub use Prim.Native.Nat.{ℕ, zero, suc, ◌+◌, ◌-◌, ◌*◌, ◌/◌, ◌%◌, ◌^◌, ◌≤◌, ◌<◌}
pub use Prim.Native.String.{String}
pub use mathlib.Core.Path.{◌≡◌, refl, sym, ap, ap₂, ◌∙◌, subst, fun_ext}
pub use mathlib.Core.Logic.{◌≢◌, ◌↔◌, ◌⊎◌, inl, inr}
pub use mathlib.Core.Bool.{Bool, true, false, ◌&&◌, ◌||◌, not, false≢true}
pub use mathlib.Core.Option.{Option, none, some}
pub use mathlib.Core.List.{List, [], ◌∷◌, ◌++◌, map, reverse, Memᴰ, append_assoc, append-nil}
pub use native.Mathlib.Omega.{arith}
