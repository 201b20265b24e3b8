-- ===== src/Superblock.antt =====
-- src/superblock.cpp: the area map that the superblock keeps in memory, its getters, and
-- what each setter stores. The journal entry that a setter writes first is in `Device`.
pub mod Laws
use paffs.Prelude.{
  ℕ, ◌+◌, ◌-◌, ◌%◌, Bool, true, false, List, ltb, leb, ◌==◌, if◌then◌else◌, get_or, set, replicate,
  u16, u64,
}
use paffs.Types.{AreaType, unset, no_type, type_no, AreaStatus, closed, active, Area, Config}
use paffs.Journal.{
  SuperEvent, rootnode, map_type, map_status, map_erasecount, map_position, map_swap, active_area,
  used_areas,
}

pub record Superblock : Type 0 where
  pub map : List Area
  pub active_areas : List ℕ
  pub used : ℕ
  pub deletions : ℕ
  pub root : ℕ
  pub root_dirty : Bool

-- `memset(mMap, 0, ...)`
abbrev pub zero_area : Area
zero_area = record { type = unset; status = closed; erasecount = 0; position = 0 }

module _ (c : Config) where
  unfoldable pub clear : Superblock
  clear = record {
    map = replicate c.areas_no zero_area;
    active_areas = replicate 7 0;
    used = 0;
    deletions = 0;
    root = 0;
    root_dirty = false;
  }

  abbrev pub area_at : ℕ → Superblock → Area
  area_at a s = get_or s.map a zero_area

  unfoldable pub get_type : ℕ → Superblock → AreaType
  get_type a s = if leb c.areas_no a then no_type else (area_at a s).type

  unfoldable pub get_status : ℕ → Superblock → AreaStatus
  get_status a s = if leb c.areas_no a then active else (area_at a s).status

  unfoldable pub get_erasecount : ℕ → Superblock → ℕ
  get_erasecount a s = if leb c.areas_no a then 0 else (area_at a s).erasecount

  unfoldable pub get_pos : ℕ → Superblock → ℕ
  get_pos a s = if leb c.areas_no a then 0 else (area_at a s).position

  unfoldable pub get_active_area : AreaType → Superblock → ℕ
  get_active_area t s = if leb 7 (type_no t) then 0 else get_or s.active_areas (type_no t) 0

  abbrev with_area : ℕ → Area → Superblock → Superblock
  with_area a v s = record s { map = set s.map a v }

  unfoldable pub store_type : ℕ → AreaType → Superblock → Superblock
  store_type a t s =
      if leb c.areas_no a then s else with_area a (record (area_at a s) { type = t }) s

  unfoldable pub store_status : ℕ → AreaStatus → Superblock → Superblock
  store_status a st s =
      if leb c.areas_no a then s else with_area a (record (area_at a s) { status = st }) s

  -- `erasecount` is a field of 17 bits.
  unfoldable pub store_erasecount : ℕ → Superblock → Superblock
  store_erasecount a s = if leb c.areas_no a then s else record s {
    deletions = u64 (s.deletions + 1);
    map =
        set s.map a (record (area_at a s) { erasecount = ((area_at a s).erasecount + 1) % 131072 });
  }

  unfoldable pub store_pos : ℕ → ℕ → Superblock → Superblock
  store_pos a p s =
      if leb c.areas_no a then s else with_area a (record (area_at a s) { position = p }) s

  -- The area becomes active, without a check of its number; area 0 stands for none.
  unfoldable pub store_active_area : AreaType → ℕ → Superblock → Superblock
  store_active_area t a s = if leb 7 (type_no t) then s else record s {
    map = set s.map a (record (area_at a s) { status = active });
    active_areas = set s.active_areas (type_no t) a;
  }

  unfoldable pub store_used_areas : ℕ → Superblock → Superblock
  store_used_areas n s = record s { used = n }

  unfoldable pub store_swap : ℕ → ℕ → Superblock → Superblock
  store_swap a b s =
      if leb c.areas_no a
      then s
      else if leb c.areas_no b
      then s
      else let x : Area = area_at a s in
        let y : Area = area_at b s in
        let map' : List Area =
          set s.map a (record x { position = y.position; erasecount = y.erasecount }) in
        let z : Area = get_or map' b zero_area in
        record s {
          map = set map' b (record z { position = x.position; erasecount = x.erasecount });
        }

  unfoldable pub store_rootnode : ℕ → Superblock → Superblock
  store_rootnode addr s = if addr == s.root then s else record s { root = addr; root_dirty = true }

  -- `preScan`, while the journal is disabled: one logged change done again.
  unfoldable pub pre_scan : SuperEvent → Superblock → Superblock
  pre_scan (rootnode addr) s = store_rootnode addr s
  pre_scan (map_type a t) s = store_type a t s
  pre_scan (map_status a st) s = store_status a st s
  pre_scan (map_erasecount a) s = store_erasecount a s
  pre_scan (map_position a p) s = store_pos a p s
  pre_scan (map_swap a b) s = store_swap a b s
  pre_scan (active_area t a) s = store_active_area t a s
  pre_scan (used_areas n) s = store_used_areas n s
