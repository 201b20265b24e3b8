-- ===== src/AreaMgmt.antt =====
-- src/area.cpp, `AreaManagement`: taking areas into use, closing, retiring and deleting them.
pub mod Replay
pub mod Prefix
pub mod Crash
pub mod Trace
pub mod DeleteTrace
use paffs.Prelude.{ℕ, zero, suc, ◌+◌, ◌*◌, Bool, true, false, ◌||◌, not, leb, ◌==◌, if◌then◌else◌}
use paffs.Types.{
  Result, ok, bug, bad_flash, is_ok, AreaType, unset, retired, is_retired, is_unset, AreaStatus,
  closed, empty, is_empty,
}
use paffs.Journal.{
  Entry, checkpoint, area_mgmt, area_mgmt_topic, init_area_as, close_area, retire_area,
  delete_area_contents, delete_area,
}
use paffs.Superblock
use paffs.Device.{
  Env, Device, log, set_type, set_status, set_active_area, increase_used_areas, decrease_used_areas,
  increase_erasecount, reset_as_written, delete_summary,
}

module _ {F C P : Type 0} (e : Env F C P) where
  abbrev D : Type 0
  D = Device F C P

  abbrev pub log_checkpoint : D → D
  log_checkpoint d = log e (checkpoint area_mgmt_topic) d

  abbrev pub status_of : ℕ → D → AreaStatus
  status_of a d = Superblock.get_status e.config a d.sb

  abbrev pub type_of : ℕ → D → AreaType
  type_of a d = Superblock.get_type e.config a d.sb

  abbrev pub pos_of : ℕ → D → ℕ
  pos_of a d = Superblock.get_pos e.config a d.sb

  abbrev pub increase_if : Bool → D → D
  increase_if b d = if b then increase_used_areas e d else d

  unfoldable pub init_as : ℕ → AreaType → D → D
  init_as a t d =
      let d1 : D = set_type e a t (log e (area_mgmt (init_area_as a t)) d) in
      let d2 : D = increase_if (is_empty (status_of a d1)) d1 in
      log_checkpoint (set_active_area e t a d2)

  unfoldable pub close : ℕ → D → D
  close a d =
      let d1 : D = set_status e a closed (log e (area_mgmt (close_area a)) d) in
      log_checkpoint (set_active_area e (type_of a d1) 0 d1)

  -- The loop over the blocks of a retired area.
  unfoldable pub mark_blocks : ℕ → ℕ → F → F
  mark_blocks zero block f = f
  mark_blocks (suc rounds) block f =
      let (r, f1) = e.driver.check_bad block f in
      let f2 : F = if is_ok r then (e.driver.mark_bad block f1).1 else f1 in
      mark_blocks rounds (block + 1) f2

  abbrev pub mark_area : ℕ → D → D
  mark_area a d = record d {
    flash = mark_blocks e.config.blocks_per_area (pos_of a d * e.config.blocks_per_area) d.flash;
  }

  unfoldable pub retire : ℕ → D → D
  retire a d =
      let d1 : D = set_status e a closed (log e (area_mgmt (retire_area a)) d) in
      let d2 : D = increase_if (is_unset (type_of a d1)) d1 in
      log_checkpoint (mark_area a (set_type e a retired d2))

  -- The loop that erases an area's blocks and stops at the first failure.
  unfoldable pub erase_blocks : ℕ → ℕ → F → Bool × F
  erase_blocks zero block f = (true, f)
  erase_blocks (suc rounds) block f =
      let (r, f1) = e.driver.erase_block block f in
      let rest = erase_blocks rounds (block + 1) f1 in if is_ok r then rest else (false, f1)

  -- The erase loop of an area, with the retirement of the area on a failure.
  unfoldable pub erase_area : ℕ → D → Result × D
  erase_area a d =
      let (fine, f) =
        erase_blocks e.config.blocks_per_area (pos_of a d * e.config.blocks_per_area) d.flash in
      let d1 : D = record d { flash = f } in if fine then (ok, d1) else (bad_flash, retire a d1)

  abbrev log_unless : Bool → Entry → D → D
  log_unless skip x d = if skip then d else log e x d

  -- `noJournalLogging` is set by `deleteArea`.
  unfoldable pub delete_contents : ℕ → ℕ → Bool → D → Result × D
  delete_contents a swapped no_logging d =
      if leb e.config.areas_no a
      then (bug, d)
      else if is_retired (type_of a d)
      then (bug, d)
      else let sw : ℕ = if swapped == 0 then a else swapped in
        let d1 : D = log_unless no_logging (area_mgmt (delete_area_contents a sw)) d in
        let (r, d2) = erase_area sw d1 in
        let d3 : D = delete_summary e a (reset_as_written e a (increase_erasecount e a d2)) in
        (r, log_unless no_logging (checkpoint area_mgmt_topic) d3)

  unfoldable pub delete : ℕ → D → Result × D
  delete a d =
      if leb e.config.areas_no a
      then (bug, d)
      else if is_retired (type_of a d)
      then (bug, d)
      else let (r, d1) = delete_contents a 0 true (log e (area_mgmt (delete_area a)) d) in
        if is_ok r
        then (
          r,
          log_checkpoint (decrease_used_areas e (set_type e a unset (set_status e a empty d1))),
        )
        else (r, d1)
