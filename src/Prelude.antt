-- ===== src/Prelude.antt =====
-- The names that the other modules share: the libraries', passed on, and those of its children.
mod Tests
mod Lists
mod Bytes
mod Arrays
mod Edits
mod Tables
mod Cells
pub use Tests.*
pub use Lists.*
pub use Arrays.{
  get_or-set, length-shift_up, length-shift_down, length-copy, length-fill, get_or-shift_up,
  get_or-shift_down, get_or-copy, get_or-fill, get_or-spread, length-spread, get_or-remove,
  get_or-spread_insert, get_or-copy-fill, length-copy-fill, get_or-insert,
}
unfoldable pub use Arrays.{shift_up, shift_down, copy, spread, fill}
pub use Bytes.{u8, u16, u32, u64, every_below}
unfoldable pub use Bytes.{every}
pub use Prim.Native.Nat.{
  ℕ, zero, suc, ◌+◌, ◌-◌, ◌*◌, ◌/◌, ◌%◌, ◌^◌, ◌≤◌, ◌<◌, bit_and, bit_or, bit_xor,
}
pub use mathlib.Core.Path.{◌≡◌, refl, sym, ap, subst, ◌∙◌}
pub use mathlib.Core.Logic.{◌≢◌, ◌↔◌, ◌⊎◌, inl, inr}
pub use mathlib.Core.Bool.{Bool, true, false, not, ◌&&◌, ◌||◌}
pub use mathlib.Core.Option.{Option, none, some}
pub use mathlib.Core.List.{List, [], ◌∷◌, ◌++◌, append-nil, append_assoc, map}
pub use native.Mathlib.Omega.{arith}
pub use Edits.{
  list_ext, length-insert_at, length-remove_at, get_or-insert_at, get_or-remove_at, get_or-append,
}
unfoldable pub use Edits.{insert_at, remove_at}
pub use Tables.{length-table, get_or-table, table_congr, table-insert, table-remove, table-append}
unfoldable pub use Tables.{table}
pub use native.Mathlib.Decide.{ℕ_discrete}
pub use Cells.{
  table_shift, table-parts, cells-insert, cells-spread_insert, cells-copy, cells-append, cells-fill,
  cells-remove, cells-set, cells-last, cells-set_last, cells-front, cells-shift_down, cells-first,
}
unfoldable pub use Cells.{cells}
