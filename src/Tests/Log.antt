-- ===== src/Tests/Log.antt =====
-- A memory of entries of two sizes, in which the position of an area is lost.
use paffs.Prelude.{
  ℕ, ◌≡◌, ◌<◌, ◌≤◌, refl, Bool, true, false, List, [], ◌∷◌, ◌==◌, if◌then◌else◌, arith,
}
use paffs.Types.{not_found, index}
use paffs.Journal.{
  Entry, checkpoint, area_mgmt_topic, area_mgmt, close_area, superblock_entry, map_type,
}
use paffs.Mram.{Struct, s_checkpoint, struct_of, MramOps, Mram, rewind, clear}
use paffs.Mram.Stored.{is_whole, MramLaws, append_all, read_from, read-append_all}

record Cells : Type 0 where
  mark : ℕ
  cell : ℕ → Entry

abbrev is_short : Struct → Bool
is_short s_checkpoint = true
is_short _ = false

abbrev size_in : Struct → ℕ
size_in s = if is_short s then 2 else 3

abbrev kept_part : Entry → Entry
kept_part x = if is_whole x then x else checkpoint area_mgmt_topic

abbrev cells_ops : MramOps Cells
cells_ops = record {
  sizeof = size_in;
  max_size = 3;
  write_entry = λ o n x m. record m { cell = λ p. if o == p then kept_part x else m.cell p };
  read_entry = λ o m. m.cell o;
  write_mark = λ n m. record m { mark = n };
  read_mark = Cells.mark;
}

size_in-bounds : (s : Struct) → (0 < size_in s) × (size_in s ≤ 3)
size_in-bounds s = ground arith

cells_laws : MramLaws cells_ops
cells_laws = record {
  some_size = λ x. (size_in-bounds (struct_of x)).0;
  size-le = λ x. (size_in-bounds (struct_of x)).1;
  mark_written = λ n m small. refl;
  entry_behind_mark = λ o n m h. refl;
  entry_written = λ o x m whole. ground (arith, whole);
  entry_before = λ o p n x m whole h. ground (arith, h, size_in-bounds (struct_of (m.cell o)));
}

abbrev blank : Mram Cells
blank = record { curr = 0; memory = record { mark = 0; cell = λ p. checkpoint area_mgmt_topic } }

abbrev some_entries : List Entry
some_entries =
    area_mgmt (close_area 3) ∷ superblock_entry (map_type 3 index) ∷ checkpoint area_mgmt_topic ∷ []

read-append_all_example :
    read_from cells_ops 64 8 5
      (rewind cells_ops 64 8 (append_all cells_ops 64 8 some_entries (clear cells_ops 64 8 blank)))
    ≡ (some_entries, not_found)
read-append_all_example =
    read-append_all cells_ops 64 8 cells_laws some_entries blank 5 (refl, (refl, (refl, tt)))
      (omega arith) (omega arith) (omega arith)
