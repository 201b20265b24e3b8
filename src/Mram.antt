-- ===== src/Mram.antt =====
-- src/journalPersistences.cpp, `MramPersistence`: the journal in a memory of bytes, behind a mark that
-- holds the end of the log.
pub mod Stored
use paffs.Prelude.{
  ℕ, zero, suc, ◌+◌, ◌-◌, Bool, true, false, List, [], ◌∷◌, ltb, leb, ◌==◌, ◌||◌, if◌then◌else◌,
  u32,
}
use paffs.Types.{Result, ok, no_space, low_mem, not_found, fail}
use paffs.Journal.{
  Entry, checkpoint, pagestate, superblock_entry, area_mgmt, move_valid_data, summary_cache, tree,
  new_inode_size, set_address, device, replace_page, replace_page_pos, success,
  invalidate_old_pages, rootnode, map_type, map_status, map_erasecount, map_position, map_swap,
  active_area, used_areas, init_area_as, close_area, retire_area, delete_area_contents, delete_area,
  commit, remove, reset, set_status, set_status_block, insert, update, remove_inode, mk_obj_inode,
  insert_into_dir, remove_obj,
}

-- The structs of src/journalEntry.hpp whose sizes `getSizeFromJE` names.
pub data Struct : Type 0 where
  s_checkpoint s_replace_page s_replace_page_pos s_success s_invalidate_old_pages s_rootnode
        s_map_type s_map_status s_map_erasecount s_map_swap s_active_area s_used_areas
        s_init_area_as s_close_area s_retire_area s_delete_area_contents s_delete_area
        s_move_valid_data s_commit s_remove s_reset s_set_status s_set_status_block s_insert
        s_update s_remove_inode s_new_inode_size s_set_address s_mk_obj_inode s_insert_into_dir
        s_remove_obj :
      Struct

-- A position is given the size of a type.
abbrev pub struct_of : Entry → Struct
struct_of (checkpoint _) = s_checkpoint
struct_of (pagestate _ (replace_page _ _)) = s_replace_page
struct_of (pagestate _ (replace_page_pos _ _ _ _)) = s_replace_page_pos
struct_of (pagestate _ success) = s_success
struct_of (pagestate _ invalidate_old_pages) = s_invalidate_old_pages
struct_of (superblock_entry (rootnode _)) = s_rootnode
struct_of (superblock_entry (map_type _ _)) = s_map_type
struct_of (superblock_entry (map_status _ _)) = s_map_status
struct_of (superblock_entry (map_erasecount _)) = s_map_erasecount
struct_of (superblock_entry (map_position _ _)) = s_map_type
struct_of (superblock_entry (map_swap _ _)) = s_map_swap
struct_of (superblock_entry (active_area _ _)) = s_active_area
struct_of (superblock_entry (used_areas _)) = s_used_areas
struct_of (area_mgmt (init_area_as _ _)) = s_init_area_as
struct_of (area_mgmt (close_area _)) = s_close_area
struct_of (area_mgmt (retire_area _)) = s_retire_area
struct_of (area_mgmt (delete_area_contents _ _)) = s_delete_area_contents
struct_of (area_mgmt (delete_area _)) = s_delete_area
struct_of (move_valid_data _) = s_move_valid_data
struct_of (summary_cache (commit _)) = s_commit
struct_of (summary_cache (remove _)) = s_remove
struct_of (summary_cache (reset _)) = s_reset
struct_of (summary_cache (set_status _ _ _)) = s_set_status
struct_of (summary_cache (set_status_block _ _)) = s_set_status_block
struct_of (tree (insert _)) = s_insert
struct_of (tree (update _)) = s_update
struct_of (tree (remove_inode _)) = s_remove_inode
struct_of (new_inode_size _ _) = s_new_inode_size
struct_of (set_address _ _ _) = s_set_address
struct_of (device (mk_obj_inode _)) = s_mk_obj_inode
struct_of (device (insert_into_dir _)) = s_insert_into_dir
struct_of (device (remove_obj _ _)) = s_remove_obj

-- `writeMRAM` and `readMRAM`, as they are called here: entries at offsets, and the mark at offset 0.
-- `sizeof` is the compiler's layout, and `max_size` that of `journalEntry::Max`.
pub record MramOps (M : Type 0) : Type 0 where
  pub sizeof : Struct → ℕ
  pub max_size : ℕ
  pub write_entry : ℕ → ℕ → Entry → M → M  -- offset, size
  pub read_entry : ℕ → M → Entry
  pub write_mark : ℕ → M → M
  pub read_mark : M → ℕ

pub record Mram (M : Type 0) : Type 0 where
  pub curr : ℕ  -- PageAbs
  pub memory : M

module _ {M : Type 0} (ops : MramOps M) (mram_size reserved : ℕ) where
  abbrev pub size_of : Entry → ℕ
  size_of x = ops.sizeof (struct_of x)

  unfoldable pub rewind : Mram M → Mram M
  rewind s = record s { curr = 4 }

  abbrev pub seek : ℕ → Mram M → Mram M
  seek offs s = record s { curr = offs }

  -- The difference is unsigned.
  unfoldable pub is_low_mem : Mram M → Bool
  is_low_mem s =
      if mram_size == 0 then false else ltb (u32 (mram_size + 4294967296 - s.curr)) reserved

  unfoldable pub append_entry : Entry → Mram M → Result × Mram M
  append_entry x s =
      if ltb mram_size (s.curr + ops.max_size)
      then (no_space, s)
      else let next : ℕ = u32 (s.curr + size_of x) in
        let s1 : Mram M = record {
          curr = next;
          memory = ops.write_mark next (ops.write_entry s.curr (size_of x) x s.memory);
        } in
        (if is_low_mem s1 then low_mem else ok, s1)

  unfoldable pub clear : Mram M → Mram M
  clear s = record { curr = 4; memory = ops.write_mark 4 s.memory }

  -- The entry that is read where the result is ok.
  unfoldable pub read_next : Mram M → Result × (Entry × Mram M)
  read_next s =
      let hwm : ℕ = ops.read_mark s.memory in
      let x : Entry = ops.read_entry s.curr s.memory in
      if (hwm == 4294967295) || leb hwm s.curr
      then (not_found, (x, s))
      else if size_of x == 0
      then (fail, (x, s))
      else (ok, (x, record s { curr = u32 (s.curr + size_of x) }))
