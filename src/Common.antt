-- ===== src/Common.antt =====
-- The names that the other modules share: the libraries', passed on, and those of the children.
mod Tests
pub mod Int64
pub mod Text
mod Tables
pub mod Pages
pub use Tests.*
unfoldable pub use Tables.{find_row, update_rows, delete_rows, sum_rows, insert_by, sort_by, take}
pub use Tables.{
  Memᴰ-take, Memᴰ-sort_by, Memᴰ-delete_rows, delete_rows-Memᴰ, find_row-append_hit,
  find_row-append_old, find_row_hit, find_row-or_none, sum_rows-append,
}
pub use Text.{◌+++◌, byte_len, char_bytes, is_space}
unfoldable pub use Text.Number.{atoi}
pub use Text.Number.{atoi-decimal}
unfoldable pub use Text.{contains, trim_space, trim_left, trim_right, to_upper, decimal}
unfoldable pub use Int64.{◌+ℤ◌, ◌-ℤ◌, ◌*ℤ◌, wrap64, add64, sub64, mul64, quot}
pub use Int64.{
  ℤ, pos, negsuc, pos_part, neg_part, sub_ℕ, ◌≤ℤ◌, ◌<ℤ◌, ltb_ℤ, leb_ℤ, IsInt64, +ℤ_parts, -ℤ_parts,
  eq_of_parts, int_laws, wrap64_id, wrap64_bounds,
}
pub use Prim.Native.Nat.{ℕ, zero, suc, ◌+◌, ◌-◌, ◌*◌, ◌/◌, ◌%◌, ◌^◌, ◌≤◌, ◌<◌}
pub use Prim.Native.String.{String, len}
pub use text.Mathlib.Text.{◌==◌}
pub use text.Mathlib.TextEquality.{eq_iff}
pub use text.Mathlib.TextPositions.{eq_refl}
pub use mathlib.Core.Path.{◌≡◌, refl, sym, ap, subst, ◌∙◌}
pub use mathlib.Core.Logic.{◌≢◌, ◌↔◌, ◌⊎◌, inl, inr}
pub use mathlib.Core.Bool.{Bool, true, false, ◌&&◌, ◌||◌, not}
pub use mathlib.Core.Option.{Option, none, some}
pub use mathlib.Core.List.{List, [], ◌∷◌, ◌++◌, map}
pub use native.Mathlib.Omega.{arith}
