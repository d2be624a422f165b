-- ===== src/Common.antt =====
-- The names that all modules share: the libraries', passed on, and those of the children.
pub mod Tests
pub mod Lists
pub mod Texts
pub mod Splits
pub mod Trims
pub use Tests.*
pub use Lists.*
unfoldable pub use Splits.{onto_first, split, cut_at, is_space, trim_left, trim_right, trim_space}
pub use Splits.{join, Lacks, IsSolid, split-join, cut_at_first, trim_space_solid}
unfoldable pub use Texts.{
  ◌==◌, has_prefix, trim_prefix, trim_suffix, has_suffix, index_of, replace_byte,
}
pub use Trims.{
  IsWithoutPrefix, IsWithoutSuffix, trim_prefix-IsWithoutPrefix, trim_suffix-IsWithoutSuffix,
  IsWithoutPrefix-unique, IsWithoutSuffix-unique,
}
pub use Texts.{Text, codes, eq_refl, eq_iff, has_prefix_sound, lookup, get_or_empty, is_key}
pub use Prim.Native.Nat.{ℕ, zero, suc, ◌+◌, ◌-◌, ◌*◌, ◌/◌, ◌%◌, ◌^◌, ◌≤◌, ◌<◌, min}
pub use mathlib.Core.Path.{◌≡◌, refl, sym, ap, ◌∙◌, subst}
pub use mathlib.Core.Logic.{◌≢◌, ◌↔◌, ◌⊎◌, inl, inr}
pub use mathlib.Core.Bool.{Bool, true, false, not, ◌&&◌, ◌||◌}
pub use mathlib.Core.Option.{Option, none, some}
pub use mathlib.Core.List.{List, [], ◌∷◌, ◌++◌, map, Memᴰ, append_assoc, append-nil}
pub use native.Mathlib.Omega.{arith}
