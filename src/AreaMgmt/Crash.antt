-- ===== src/AreaMgmt/Crash.antt =====
-- Crash safety of area management: wherever the log of an operation breaks off, replaying it
-- gives the area map from before the operation or the one after it. A child for each operation
-- says what it logs and what is left to do after each of its entries.
pub mod Init
pub mod Close
pub mod Retire
pub mod Delete
use paffs.Prelude.{
  ℕ, zero, suc, ◌+◌, ◌-◌, ◌*◌, ◌<◌, ◌≡◌, ◌≢◌, refl, ap, sym, ◌∙◌, Bool, true, false, List, [], ◌∷◌,
  ◌++◌, if◌then◌else◌, ◌==◌, leb, u16, arith, append_assoc,
}
use paffs.Types.{AreaType, type_no, unset, retired, closed, empty, is_empty, is_unset, is_retired}
use paffs.Journal.{
  Entry, checkpoint, area_mgmt_topic, superblock_entry, area_mgmt, init_area_as, close_area,
  retire_area, delete_area, delete_area_contents, map_type, map_status, map_erasecount, active_area,
  used_areas, summary_cache, reset, remove,
}
use paffs.Superblock
use paffs.Superblock.{Superblock}
use paffs.Superblock.Laws.{get_type-store_status}
use paffs.Device.{
  Env, Device, log, set_active_area, set_type, set_status, increase_erasecount, reset_as_written,
  delete_summary,
}
use paffs.Device.Effects.{
  sb-log, sb-set_type, sb-set_status, sb-increase_erasecount, sb-set_active_area, sb-set_used_areas,
  sb-reset_as_written, sb-delete_summary,
}
use paffs.AreaMgmt.{
  init_as, close, retire, delete, delete_contents, erase_area, erase_blocks, increase_if,
}
use paffs.AreaMgmt.Replay.{
  ExternOp, nothing, set_type_done, set_status_done, set_active_done, used_areas_done,
  erasecount_done, reset_done, summary_done, reset_state, process_entry, is_interested_in,
  apply_entry, scan_from, replay, signal_end_of_log, erase_all,
}
use paffs.AreaMgmt.Prefix.{within, IsForeign, recovered, Finishes, recovered_begun}

pub later : (k : ℕ) (s t : Superblock) → t ≡ (if suc k == 0 then s else t)
later k s t = ground arith

module _ {F C P : Type 0} (e : Env F C P) where
  abbrev pub end_mark : List Entry
  end_mark = checkpoint area_mgmt_topic ∷ []

  abbrev pub raise_if : Bool → Superblock → Superblock
  raise_if b s = if b then Superblock.store_used_areas e.config (u16 (s.used + 1)) s else s

  pub sb-increase_if : (b : Bool) (d : Device F C P) → (increase_if e b d).sb ≡ raise_if b d.sb
  sb-increase_if true d = sb-set_used_areas e (u16 (d.sb.used + 1)) d
  sb-increase_if false d = refl

  -- What `setActiveArea` does, its guard included.
  abbrev pub put_active : AreaType → ℕ → Superblock → Superblock
  put_active t a s = if leb 7 (type_no t) then s else Superblock.store_active_area e.config t a s

  pub sb-put_active :
      (t : AreaType) (a : ℕ) (d : Device F C P) → (set_active_area e t a d).sb ≡ put_active t a d.sb
  unfolding set_active_area log
  sb-put_active t a d = ground arith
