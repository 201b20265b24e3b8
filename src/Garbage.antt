-- ===== src/Garbage.antt =====
-- src/garbage_collection.cpp, `GarbageCollection`: which area is freed, and how its valid
-- pages are moved into the garbage buffer.
pub mod Collect
pub mod Ends
pub mod Moving
pub mod Rounds
pub mod Search
pub mod Weighing
pub mod Writable
use paffs.Prelude.{
  Option, none, some, ℕ, zero, suc, ◌+◌, ◌-◌, ◌*◌, ◌/◌, Bool, true, false, not, ◌&&◌, ◌||◌, List,
  [], ltb, leb, ◌==◌, if◌then◌else◌, get_or, set, replicate, u32,
}
use paffs.Types.{
  Result, ok, bug, no_space, bad_flash, biterror_corrected, is_ok, AreaType, index, data_area,
  garbage_buffer, is_unset, type_no, AreaStatus, active, SummaryEntry, free, used, dirty, error,
}
use paffs.Journal.{
  Entry, checkpoint, move_valid_data as move_valid_data_entry, garbage_topic, Topic, area_mgmt,
  delete_area, delete_area_contents, superblock_entry, map_swap, summary_cache, set_status_block,
}
use paffs.Superblock
use paffs.Device.{Env, Device, log, set_active_area, swap_area_position}
use paffs.AreaMgmt.{status_of, type_of, pos_of, init_as, delete, delete_contents}

abbrev pub is_dirty : SummaryEntry → Bool
is_dirty dirty = true
is_dirty _ = false

abbrev pub is_used : SummaryEntry → Bool
is_used used = true
is_used _ = false

abbrev pub is_active : AreaStatus → Bool
is_active active = true
is_active _ = false

abbrev pub holds_files : AreaType → Bool
holds_files data_area = true
holds_files index = true
holds_files _ = false

abbrev pub is_readable : Result → Bool
is_readable ok = true
is_readable biterror_corrected = true
is_readable _ = false

-- `countDirtyAndUsedPages`, for one of the two states.
unfoldable pub count_pages : (SummaryEntry → Bool) → ℕ → ℕ → List SummaryEntry → ℕ
count_pages test zero i summary = 0
count_pages test (suc rounds) i summary =
    let rest : ℕ = count_pages test rounds (i + 1) summary in
    if test (get_or summary i error) then rest + 1 else rest

-- The summary cache and the pages of the flash, as far as garbage collection calls them.
pub record GarbageOps (F D : Type 0) : Type 0 where
  pub get_summary : ℕ → D → Result × (List SummaryEntry × D)
  pub set_summary : ℕ → List SummaryEntry → D → Result × D
  pub was_written : ℕ → D → Bool
  pub should_clear : ℕ → D → Bool
  pub read_page : ℕ → F → Result × (List ℕ × F)
  pub write_page : ℕ → List ℕ → F → Result × F

-- What the search remembers.
pub record Favourite : Type 0 where
  pub area : ℕ
  pub dirty_pages : ℕ
  pub erases : ℕ
  pub valid : Bool
  pub summary : List SummaryEntry

module _ {F C P : Type 0} (e : Env F C P) (ops : GarbageOps F (Device F C P)) where
  abbrev D : Type 0
  D = Device F C P

  abbrev pub erases_of : ℕ → D → ℕ
  erases_of a d = Superblock.get_erasecount e.config a d.sb

  abbrev pub dirty_in : List SummaryEntry → ℕ
  dirty_in summary = count_pages is_dirty e.config.data_pages_per_area 0 summary

  abbrev pub used_in : List SummaryEntry → ℕ
  used_in summary = count_pages is_used e.config.data_pages_per_area 0 summary

  unfoldable pub is_candidate : ℕ → D → Bool
  is_candidate i d = not (is_active (status_of e i d)) && holds_files (type_of e i d)

  -- A completely dirty area, unless it was erased too often.
  unfoldable pub is_cleanable : ℕ → List SummaryEntry → D → Bool
  is_cleanable i curr d =
      dirty_in curr == e.config.data_pages_per_area
      && (ltb d.sb.deletions e.config.areas_no
          || ltb (erases_of i d) (d.sb.deletions / e.config.areas_no))

  unfoldable pub is_better : ℕ → List SummaryEntry → Favourite → D → Bool
  is_better i curr b d =
      let n : ℕ = dirty_in curr in
      ltb b.dirty_pages n
      || (not (n == 0) && n == b.dirty_pages && ltb (erases_of i d) b.erases)
      || (not (n == 0) && n == b.dirty_pages && ops.was_written i d)

  -- `favErases` is only kept in the normal case.
  abbrev pub prefer : ℕ → ℕ → List SummaryEntry → Favourite
  prefer i erases curr = record {
    area = i;
    dirty_pages = dirty_in curr;
    erases = erases;
    valid = ltb 0 (used_in curr);
    summary = curr;
  }

  abbrev pub take_clean : ℕ → List SummaryEntry → Favourite → Favourite
  take_clean i curr b = record b { area = i; valid = false; summary = curr }

  -- One area with its summary; `true` ends the search.
  unfoldable pub weigh : AreaType → ℕ → List SummaryEntry → Favourite → D → Bool × Favourite
  weigh target i curr b d =
      if is_unset target
      then (if ops.should_clear i d && leb b.dirty_pages (dirty_in curr)
          then (false, prefer i b.erases curr)
          else (false, b))
      else if is_cleanable i curr d
      then (true, take_clean i curr b)
      else if not (type_no (type_of e i d) == type_no target)
      then (false, b)
      else if is_better i curr b d
      then (false, prefer i (erases_of i d) curr)
      else (false, b)

  abbrev pub no_area : Favourite → Favourite
  no_area b = record b { area = 0 }

  -- The loop over the areas.
  unfoldable pub search_areas : AreaType → ℕ → ℕ → Favourite → D → Favourite × D
  search_areas target zero i b d = (b, d)
  search_areas target (suc rounds) i b d =
      let (r, (curr, d1)) = ops.get_summary i d in
      let (found, b1) = weigh target i curr b d1 in
      let skipped : Favourite × D = search_areas target rounds (i + 1) b d in
      let rest : Favourite × D = search_areas target rounds (i + 1) b1 d1 in
      if not (is_candidate i d)
      then skipped
      else if not (is_ok r)
      then (no_area b, d1)
      else if found
      then (b1, d1)
      else rest

  abbrev pub nothing_found : List SummaryEntry → Favourite
  nothing_found summary = record {
    area = 0;
    dirty_pages = 0;
    erases = 4294967295;
    valid = false;
    summary = summary;
  }

  -- `findNextBestArea`; the caller's array has `error` in every place.
  unfoldable pub find_next_best_area : AreaType → D → Favourite × D
  find_next_best_area target d =
      search_areas target e.config.areas_no 0
        (nothing_found (replicate e.config.data_pages_per_area error)) d

  -- The loop of `moveValidDataToNewArea`; a failure is remembered and the loop goes on. `worse` is
  -- the greater of two results, by their values.
  unfoldable pub move_pages :
      (Result → Result → Result)
      → ℕ
      → ℕ
      → ℕ
      → ℕ
      → Bool
      → List SummaryEntry
      → Result
      → F
      → Result × (Bool × (List SummaryEntry × F))
  move_pages worse zero page src dst left summary ret f = (ret, (left, (summary, f)))
  move_pages worse (suc rounds) page src dst left summary ret f =
      let (r, (content, f1)) = ops.read_page (src + page) f in
      let ret1 : Result = if is_readable r then ret else worse r ret in
      let (r2, f2) = ops.write_page (dst + page) content f1 in
      let ret2 : Result = if is_ok r2 then ret1 else worse bad_flash ret1 in
      let moved = move_pages worse rounds (page + 1) src dst true summary ret2 f2 in
      let skipped = move_pages worse rounds (page + 1) src dst left (set summary page free) ret f in
      if is_used (get_or summary page error) then moved else skipped

  unfoldable pub move_valid_data :
      (Result → Result → Result)
      → ℕ
      → ℕ
      → List SummaryEntry
      → D
      → Result × (Bool × (List SummaryEntry × D))
  move_valid_data worse src dst summary d =
      let d1 : D = log e (move_valid_data_entry src) d in
      let (r, (left, (summary1, f))) =
        move_pages worse e.config.data_pages_per_area 0
          (pos_of e src d1 * e.config.total_pages_per_area)
          (pos_of e dst d1 * e.config.total_pages_per_area) false summary ok d1.flash in
      (r, (left, (summary1, record d1 { flash = f })))
