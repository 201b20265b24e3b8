-- ===== src/AreaMgmt/Replay.antt =====
-- src/area.cpp, `processEntry` and `signalEndOfLog`: how area management finishes, after a crash,
-- the operation that the log shows as begun; and the part of src/journal.cpp's
-- `applyJournalEntries` that hands it the entries since its last checkpoint.
use paffs.Prelude.{ℕ, zero, suc, ◌+◌, Bool, true, false, List, [], ◌∷◌, ◌==◌, if◌then◌else◌, ◌*◌}
use paffs.Types.{Result, AreaType, ok, bug, unset, retired, is_unset, closed, empty, is_empty}
use paffs.Journal.{
  topic_no, area_mgmt_topic, Entry, checkpoint, pagestate, superblock_entry, area_mgmt,
  summary_cache, AreaEvent, init_area_as, close_area, retire_area, delete_area_contents,
  delete_area, map_type, map_status, map_erasecount, active_area, used_areas, remove, reset,
}
use paffs.Superblock
use paffs.Superblock.{Superblock}
use paffs.Device.{
  Env, Device, set_type, set_status, set_active_area, decrease_used_areas, increase_erasecount,
  reset_as_written, delete_summary,
}
use paffs.AreaMgmt.{log_checkpoint, status_of, type_of, pos_of, increase_if, mark_area}

-- `ExternOp`: the last change of another topic that belongs to the operation.
pub data ExternOp : Type 0 where
  nothing set_type_done set_status_done set_active_done used_areas_done erasecount_done reset_done
        summary_done :
      ExternOp

pub record Scan : Type 0 where
  pub unfinished : Bool
  pub last_op : AreaEvent
  pub last_extern : ExternOp

-- `resetState`
unfoldable pub reset_state : Scan
reset_state = record { unfinished = false; last_op = init_area_as 0 unset; last_extern = nothing }

-- The superblock and summary entries that `processEntry` keeps; others leave `mLastExternOp`.
abbrev pub extern_of : Entry → ExternOp → ExternOp
extern_of (superblock_entry (map_type _ _)) x = set_type_done
extern_of (superblock_entry (map_status _ _)) x = set_status_done
extern_of (superblock_entry (map_erasecount _)) x = erasecount_done
extern_of (superblock_entry (active_area _ _)) x = set_active_done
extern_of (superblock_entry (used_areas _)) x = used_areas_done
extern_of (summary_cache (remove _)) x = summary_done
extern_of (summary_cache (reset _)) x = reset_done
extern_of _ x = x

-- An entry of its own topic begins an operation. `mLastExternOp` is not reset here.
unfoldable pub process_entry : Entry → Scan → Result × Scan
process_entry (area_mgmt op) s = (ok, record s { unfinished = true; last_op = op })
process_entry x s =
    if s.unfinished then (ok, record s { last_extern = extern_of x s.last_extern }) else (bug, s)

abbrev pub is_foreign : Entry → Bool
is_foreign (superblock_entry _) = true
is_foreign (summary_cache _) = true
is_foreign _ = false

unfoldable pub is_interested_in : Entry → Scan → Bool
is_interested_in x s = if s.unfinished then is_foreign x else false

abbrev is_own : Entry → Bool
is_own (area_mgmt _) = true
is_own (pagestate t _) = topic_no t == topic_no area_mgmt_topic
is_own _ = false

-- One round of the loop of `applyJournalEntries`, for this topic.
unfoldable pub apply_entry : Entry → Scan → Scan
apply_entry x s =
    if is_own x
    then (process_entry x s).1
    else if is_interested_in x s
    then (process_entry x s).1
    else s

abbrev ends_here : Entry → Bool
ends_here (checkpoint t) = topic_no t == topic_no area_mgmt_topic
ends_here _ = false

-- The entries are handed over from the last checkpoint of the topic on: a checkpoint met on the
-- way means that nothing before it was.
unfoldable pub scan_from : Scan → List Entry → Scan
scan_from s [] = s
scan_from s (x ∷ xs) = scan_from (if ends_here x then reset_state else apply_entry x s) xs

module _ {F C P : Type 0} (e : Env F C P) where
  abbrev D : Type 0
  D = Device F C P

  -- The superblock's `preScan` over the log.
  abbrev pub replay_entry : Entry → Superblock → Superblock
  replay_entry (superblock_entry ev) s = Superblock.pre_scan e.config ev s
  replay_entry _ s = s

  unfoldable pub replay : List Entry → Superblock → Superblock
  replay [] s = s
  replay (x ∷ xs) s = replay xs (replay_entry x s)

  -- The cases of `signalEndOfLog`, each falling through to the next.
  finish_init : ExternOp → ℕ → AreaType → D → D
  finish_init nothing a t d =
      let d1 : D = set_type e a t d in
      log_checkpoint e (set_active_area e t a (increase_if e (is_empty (status_of e a d1)) d1))
  finish_init set_type_done a t d =
      log_checkpoint e (set_active_area e t a (increase_if e (is_empty (status_of e a d)) d))
  finish_init used_areas_done a t d = log_checkpoint e (set_active_area e t a d)
  finish_init set_active_done a t d = log_checkpoint e d
  finish_init _ a t d = d

  finish_close : ExternOp → ℕ → D → D
  finish_close nothing a d =
      let d1 : D = set_status e a closed d in
      log_checkpoint e (set_active_area e (type_of e a d1) 0 d1)
  finish_close set_status_done a d = log_checkpoint e (set_active_area e (type_of e a d) 0 d)
  finish_close set_active_done a d = log_checkpoint e d
  finish_close _ a d = d

  finish_retire : ExternOp → ℕ → D → D
  finish_retire nothing a d =
      let d1 : D = set_status e a closed d in
      let d2 : D = set_type e a retired (increase_if e (is_unset (type_of e a d1)) d1) in
      log_checkpoint e (mark_area e a d2)
  finish_retire set_status_done a d =
      let d2 : D = set_type e a retired (increase_if e (is_unset (type_of e a d)) d) in
      log_checkpoint e (mark_area e a d2)
  finish_retire used_areas_done a d = log_checkpoint e (mark_area e a (set_type e a retired d))
  finish_retire set_type_done a d = log_checkpoint e (mark_area e a d)
  finish_retire _ a d = d

  -- Here every block is erased, and the driver's results are not looked at.
  unfoldable pub erase_all : ℕ → ℕ → F → F
  erase_all zero block f = f
  erase_all (suc rounds) block f = erase_all rounds (block + 1) (e.driver.erase_block block f).1

  abbrev pub erase_position : ℕ → D → D
  erase_position a d = record d {
    flash = erase_all e.config.blocks_per_area (pos_of e a d * e.config.blocks_per_area) d.flash;
  }

  -- The part of the cases that `deleteArea` and `deleteAreaContents` share.
  abbrev finish_contents : ExternOp → ℕ → D → D
  finish_contents nothing a d =
      delete_summary e a (reset_as_written e a (increase_erasecount e a (erase_position a d)))
  finish_contents erasecount_done a d = delete_summary e a (reset_as_written e a d)
  finish_contents reset_done a d = delete_summary e a d
  finish_contents _ a d = d

  -- What only `deleteArea` goes on with.
  abbrev finish_freeing : ExternOp → ℕ → D → D
  finish_freeing set_status_done a d =
      log_checkpoint e (decrease_used_areas e (set_type e a unset d))
  finish_freeing set_type_done a d = log_checkpoint e (decrease_used_areas e d)
  finish_freeing used_areas_done a d = log_checkpoint e d
  finish_freeing set_active_done a d = d
  finish_freeing _ a d =
      log_checkpoint e (decrease_used_areas e (set_type e a unset (set_status e a empty d)))

  -- `deleteAreaContents` leaves the switch after the summary is deleted; in the later states it
  -- runs through the rest of the cases.
  abbrev finish_contents_only : ExternOp → ℕ → D → D
  finish_contents_only set_status_done a d = finish_freeing set_status_done a d
  finish_contents_only set_type_done a d = finish_freeing set_type_done a d
  finish_contents_only used_areas_done a d = finish_freeing used_areas_done a d
  finish_contents_only x a d = finish_contents x a d

  finish_op : AreaEvent → ExternOp → D → D
  unfolding finish_init finish_close finish_retire
  finish_op (init_area_as a t) x d = finish_init x a t d
  finish_op (close_area a) x d = finish_close x a d
  finish_op (retire_area a) x d = finish_retire x a d
  finish_op (delete_area_contents a _) x d = finish_contents_only x a d
  finish_op (delete_area a) x d = finish_freeing x a (finish_contents x a d)

  unfoldable pub signal_end_of_log : Scan → D → D
  unfolding finish_op
  signal_end_of_log s d =
      if s.unfinished then log_checkpoint e (finish_op s.last_op s.last_extern d) else d
