-- ===== src/Device.antt =====
-- The part of `Device` that area management works on: the superblock, the summary cache, the
-- flash behind the driver and the journal; and src/superblock.cpp's setters, which write a
-- journal entry before they change the area map.
pub mod Effects
use paffs.Prelude.{ℕ, ◌+◌, ◌-◌, Bool, leb, ◌==◌, if◌then◌else◌, u16}
use paffs.Types.{Result, AreaType, AreaStatus, Config, type_no}
use paffs.Journal.{
  Entry, superblock_entry, summary_cache, rootnode, map_type, map_status, map_erasecount,
  map_position, map_swap, active_area, used_areas, remove, reset, Journal, PersistenceOps,
  add_event,
}
use paffs.Superblock
use paffs.Superblock.{Superblock}

-- src/driver/driver.hpp, the calls that area management makes.
pub record DriverOps (F : Type 0) : Type 0 where
  pub erase_block : ℕ → F → Result × F
  pub mark_bad : ℕ → F → Result × F
  pub check_bad : ℕ → F → Result × F

-- What `SummaryCache::resetASWritten` and `deleteSummary` do to the cache itself.
pub record SummaryOps (C : Type 0) : Type 0 where
  pub exists_elem : ℕ → C → Bool
  pub clear_written : ℕ → C → C
  pub drop_elem : ℕ → C → C

pub record Env (F C P : Type 0) : Type 0 where
  pub config : Config
  pub driver : DriverOps F
  pub summary : SummaryOps C
  pub persistence : PersistenceOps P

pub record Device (F C P : Type 0) : Type 0 where
  pub sb : Superblock
  pub cache : C
  pub flash : F
  pub journal : Journal P

module _ {F C P : Type 0} (e : Env F C P) where
  -- No caller in area management or in the superblock looks at the result of `addEvent`.
  unfoldable pub log : Entry → Device F C P → Device F C P
  log x d = record d { journal = (add_event e.persistence e.config.mram_size x d.journal).1 }

  abbrev store : (Superblock → Superblock) → Device F C P → Device F C P
  store f d = record d { sb = f d.sb }

  unfoldable pub set_type : ℕ → AreaType → Device F C P → Device F C P
  set_type a t d =
      if leb e.config.areas_no a
      then d
      else store (Superblock.store_type e.config a t) (log (superblock_entry (map_type a t)) d)

  unfoldable pub set_status : ℕ → AreaStatus → Device F C P → Device F C P
  set_status a st d =
      if leb e.config.areas_no a
      then d
      else store (Superblock.store_status e.config a st)
          (log (superblock_entry (map_status a st)) d)

  unfoldable pub increase_erasecount : ℕ → Device F C P → Device F C P
  increase_erasecount a d =
      if leb e.config.areas_no a
      then d
      else store (Superblock.store_erasecount e.config a)
          (log (superblock_entry (map_erasecount a)) d)

  unfoldable pub set_pos : ℕ → ℕ → Device F C P → Device F C P
  set_pos a p d =
      if leb e.config.areas_no a
      then d
      else store (Superblock.store_pos e.config a p) (log (superblock_entry (map_position a p)) d)

  unfoldable pub set_active_area : AreaType → ℕ → Device F C P → Device F C P
  set_active_area t a d =
      if leb 7 (type_no t)
      then d
      else store (Superblock.store_active_area e.config t a)
          (log (superblock_entry (active_area t a)) d)

  unfoldable pub set_used_areas : ℕ → Device F C P → Device F C P
  set_used_areas n d =
      store (Superblock.store_used_areas e.config n) (log (superblock_entry (used_areas n)) d)

  -- `AreaPos` has 16 bits.
  abbrev pub increase_used_areas : Device F C P → Device F C P
  increase_used_areas d = set_used_areas (u16 (d.sb.used + 1)) d

  abbrev pub decrease_used_areas : Device F C P → Device F C P
  decrease_used_areas d = set_used_areas (u16 (d.sb.used + 65536 - 1)) d

  unfoldable pub swap_area_position : ℕ → ℕ → Device F C P → Device F C P
  swap_area_position a b d =
      if leb e.config.areas_no a
      then d
      else if leb e.config.areas_no b
      then d
      else store (Superblock.store_swap e.config a b) (log (superblock_entry (map_swap a b)) d)

  unfoldable pub register_rootnode : ℕ → Device F C P → Device F C P
  register_rootnode addr d =
      if addr == d.sb.root
      then d
      else log (superblock_entry (rootnode addr))
          (store (Superblock.store_rootnode e.config addr) d)

  -- src/summaryCache.cpp; an area that is not cached is left alone.
  unfoldable pub reset_as_written : ℕ → Device F C P → Device F C P
  reset_as_written a d =
      if e.summary.exists_elem a d.cache
      then record (log (summary_cache (reset a)) d) { cache = e.summary.clear_written a d.cache }
      else d

  unfoldable pub delete_summary : ℕ → Device F C P → Device F C P
  delete_summary a d =
      if e.summary.exists_elem a d.cache
      then record (log (summary_cache (remove a)) d) { cache = e.summary.drop_elem a d.cache }
      else d
