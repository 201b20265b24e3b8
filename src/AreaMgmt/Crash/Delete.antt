-- ===== src/AreaMgmt/Crash/Delete.antt =====
-- src/area.cpp, `deleteArea`, broken off and recovered.
use paffs.Prelude.{
  ℕ, zero, suc, ◌+◌, ◌-◌, ◌*◌, ◌<◌, ◌≡◌, ap, sym, ◌∙◌, Bool, true, false, List, [], ◌∷◌, ◌++◌,
  if◌then◌else◌, ◌==◌, u16, arith,
}
use paffs.Types.{ok, unset, empty, is_retired}
use paffs.Journal.{
  Entry, checkpoint, area_mgmt_topic, superblock_entry, area_mgmt, delete_area, map_type,
  map_status, map_erasecount, used_areas, summary_cache, reset, remove,
}
use paffs.Superblock
use paffs.Superblock.{Superblock}
use paffs.Device.{
  Env, Device, log, decrease_used_areas, set_type, set_status, set_used_areas, increase_erasecount,
  reset_as_written, delete_summary,
}
use paffs.Device.Effects.{
  sb-log, sb-set_type, sb-set_status, sb-increase_erasecount, sb-set_used_areas,
  sb-reset_as_written, sb-delete_summary,
}
use paffs.AreaMgmt.{delete, delete_contents, erase_area, erase_blocks}
use paffs.AreaMgmt.Replay.{
  ExternOp, nothing, set_type_done, set_status_done, set_active_done, used_areas_done,
  erasecount_done, reset_done, summary_done, replay, signal_end_of_log, erase_position,
}
use paffs.AreaMgmt.Prefix.{within, IsForeign, recovered, Finishes, recovered_none, recovered_begun}
use paffs.AreaMgmt.Crash.{end_mark, later}

module _ {F C P : Type 0} (e : Env F C P) where
  module _ (a : ℕ) where
    abbrev lower : Superblock → Superblock
    lower s = Superblock.store_used_areas e.config (u16 (s.used + 65536 - 1)) s

    abbrev untyped : Superblock → Superblock
    untyped s = lower (Superblock.store_type e.config a unset s)

    abbrev freed : Superblock → Superblock
    freed s = untyped (Superblock.store_status e.config a empty s)

    -- What is left of `deleteArea`.
    abbrev delete_rest : ExternOp → Superblock → Superblock
    delete_rest nothing s = freed (Superblock.store_erasecount e.config a s)
    delete_rest set_status_done s = untyped s
    delete_rest set_type_done s = lower s
    delete_rest used_areas_done s = s
    delete_rest set_active_done s = s
    delete_rest _ s = freed s

    abbrev pub one_if : Bool → Entry → List Entry
    one_if b x = if b then x ∷ [] else []

    -- `b1`: the summary is cached; `b2`: it is cached after it was cleared.
    abbrev delete_body : Bool → Bool → Superblock → List Entry
    delete_body b1 b2 s =
        superblock_entry (map_erasecount a) ∷ one_if b1 (summary_cache (reset a))
        ++ one_if b2 (summary_cache (remove a))
        ++ (superblock_entry (map_status a empty)
            ∷ superblock_entry (map_type a unset)
            ∷ superblock_entry (
                used_areas (
                  u16 (
                    (Superblock.store_type e.config a unset (
                      Superblock.store_status e.config a empty
                        (Superblock.store_erasecount e.config a s))).used
                    + 65536
                    - 1)))
            ∷ [])

    abbrev pub is_cached : Device F C P → Bool
    is_cached d = e.summary.exists_elem a d.cache

    abbrev pub is_cached_cleared : Device F C P → Bool
    is_cached_cleared d =
        e.summary.exists_elem a (if is_cached d then e.summary.clear_written a d.cache else d.cache)

    -- What `deleteArea` writes into the log when every block is erased.
    unfoldable pub delete_trace : Device F C P → List Entry
    delete_trace d =
        area_mgmt (delete_area a)
        ∷ (delete_body (is_cached d) (is_cached_cleared d) d.sb ++ end_mark e)

    module _ (ha : a < e.config.areas_no) where
      from_type :
          (d : Device F C P) → (set_used_areas e (u16 (d.sb.used + 65536 - 1)) d).sb ≡ lower d.sb
      from_type d = sb-set_used_areas e (u16 (d.sb.used + 65536 - 1)) d

      from_status :
          (d : Device F C P)
          → (set_used_areas e
              (u16 ((set_type e a unset d).sb.used + 65536 - 1))
              (set_type e a unset d)).sb
            ≡ untyped d.sb
      from_status d = from_type (set_type e a unset d) ∙ ap lower (sb-set_type e a unset d ha)

      from_contents :
          (d : Device F C P)
          → (set_used_areas e
              (u16 ((set_type e a unset (set_status e a empty d)).sb.used + 65536 - 1))
              (set_type e a unset (set_status e a empty d))).sb
            ≡ freed d.sb
      from_contents d =
          from_status (set_status e a empty d) ∙ ap untyped (sb-set_status e a empty d ha)

      sb-contents :
          (d : Device F C P)
          → (delete_summary e a (reset_as_written e a (increase_erasecount e a d))).sb
            ≡ Superblock.store_erasecount e.config a d.sb
      sb-contents d =
          sb-delete_summary e a _ ∙ sb-reset_as_written e a _ ∙ sb-increase_erasecount e a d ha

      delete_completes :
          (x : ExternOp) (d : Device F C P)
          → (signal_end_of_log e (within (delete_area a) x) d).sb ≡ delete_rest x d.sb
      unfolding signal_end_of_log
      delete_completes nothing d =
          sb-log e _ _
          ∙ sb-log e _ _
          ∙ from_contents _
          ∙ ap freed (sb-contents (erase_position e a d))
      delete_completes erasecount_done d =
          sb-log e _ _
          ∙ sb-log e _ _
          ∙ from_contents _
          ∙ ap freed (sb-delete_summary e a _ ∙ sb-reset_as_written e a d)
      delete_completes reset_done d =
          sb-log e _ _ ∙ sb-log e _ _ ∙ from_contents _ ∙ ap freed (sb-delete_summary e a d)
      delete_completes summary_done d = sb-log e _ _ ∙ sb-log e _ _ ∙ from_contents d
      delete_completes set_status_done d = sb-log e _ _ ∙ sb-log e _ _ ∙ from_status d
      delete_completes set_type_done d = sb-log e _ _ ∙ sb-log e _ _ ∙ from_type d
      delete_completes used_areas_done d = sb-log e _ _ ∙ sb-log e _ _
      delete_completes set_active_done d = sb-log e _ _

      delete-IsForeign : (b1 b2 : Bool) (s : Superblock) → IsForeign (delete_body b1 b2 s)
      delete-IsForeign false false s = ground arith
      delete-IsForeign false true s = ground arith
      delete-IsForeign true false s = ground arith
      delete-IsForeign true true s = ground arith

      delete-Finishes :
          (b1 b2 : Bool) (s : Superblock)
          → Finishes e delete_rest (delete_rest nothing s) nothing s (delete_body b1 b2 s)
      unfolding Superblock.pre_scan
      delete-Finishes false false s = ground arith
      delete-Finishes false true s = ground arith
      delete-Finishes true false s = ground arith
      delete-Finishes true true s = ground arith

      delete_replays :
          (b1 b2 : Bool) (s : Superblock) → replay e (delete_body b1 b2 s) s ≡ delete_rest nothing s
      unfolding replay Superblock.pre_scan
      delete_replays false false s = ground arith
      delete_replays false true s = ground arith
      delete_replays true false s = ground arith
      delete_replays true true s = ground arith

      -- The driver erases every block of the area.
      abbrev pub IsErasable : Device F C P → Type 0
      IsErasable d =
          (erase_blocks e e.config.blocks_per_area
            (Superblock.get_pos e.config a d.sb * e.config.blocks_per_area) d.flash).0
          ≡ true

      abbrev pub erased : Device F C P → Device F C P
      erased d = record d {
        flash =
            (erase_blocks e e.config.blocks_per_area
              (Superblock.get_pos e.config a d.sb * e.config.blocks_per_area) d.flash).1;
      }

      abbrev pub emptied : Device F C P → Device F C P
      emptied d = delete_summary e a (reset_as_written e a (increase_erasecount e a (erased d)))

      contents-fine :
          (d : Device F C P)
          → is_retired (Superblock.get_type e.config a d.sb) ≡ false
          → IsErasable d
          → delete_contents e a 0 true d ≡ (ok, emptied d)
      unfolding delete_contents erase_area
      contents-fine d ht he = ground arith

      pub contents-begun :
          (d : Device F C P)
          → is_retired (Superblock.get_type e.config a d.sb) ≡ false
          → IsErasable d
          → delete_contents e a 0 true (log e (area_mgmt (delete_area a)) d)
            ≡ (ok, emptied (log e (area_mgmt (delete_area a)) d))
      unfolding log
      contents-begun d ht he = contents-fine (log e (area_mgmt (delete_area a)) d) ht he

      pub delete-fine :
          (d : Device F C P)
          → is_retired (Superblock.get_type e.config a d.sb) ≡ false
          → delete_contents e a 0 true (log e (area_mgmt (delete_area a)) d)
            ≡ (ok, emptied (log e (area_mgmt (delete_area a)) d))
          → delete e a d ≡ (
            ok,
            log e (checkpoint area_mgmt_topic) (
                decrease_used_areas e (
                  set_type e a unset
                    (set_status e a empty (emptied (log e (area_mgmt (delete_area a)) d))))),
          )
      unfolding delete
      delete-fine d ht h = ground arith

      sb-delete :
          (d : Device F C P)
          → is_retired (Superblock.get_type e.config a d.sb) ≡ false
          → IsErasable d
          → (delete e a d).1.sb ≡ delete_rest nothing d.sb
      sb-delete d ht he =
          let d0 : Device F C P = log e (area_mgmt (delete_area a)) d in
          ap (λ r. r.1.sb) (delete-fine d ht (contents-begun d ht he))
          ∙ sb-log e _ _
          ∙ from_contents (emptied d0)
          ∙ ap freed (sb-contents (erased d0))
          ∙ rw (sb-log e (area_mgmt (delete_area a)) d)

  -- For a valid area that is not retired and whose blocks the driver erases: when the log of
  -- `deleteArea` breaks off after `k` entries, the area map after replay and recovery is the old
  -- one for k = 0, and else the one `deleteArea` ends in, whatever cache, flash and journal the
  -- device restarts with.
  pub delete-crash_at :
      (a : ℕ) (d d' : Device F C P) (k : ℕ)
      → a < e.config.areas_no
      → is_retired (Superblock.get_type e.config a d.sb) ≡ false
      → (erase_blocks e e.config.blocks_per_area
          (Superblock.get_pos e.config a d.sb * e.config.blocks_per_area)
          d.flash).0
        ≡ true
      → recovered e d' d.sb k (delete_trace a d) ≡ (if k == 0 then d.sb else (delete e a d).1.sb)
  unfolding delete_trace
  delete-crash_at a d d' zero ha ht he = recovered_none e d' d.sb (delete_trace a d)
  delete-crash_at a d d' (suc k) ha ht he =
      let b1 : Bool = is_cached a d in
      let b2 : Bool = is_cached_cleared a d in
      recovered_begun e (delete_rest a) (delete_rest a nothing d.sb) (delete_area a)
        (delete_body a b1 b2 d.sb) d.sb d' k (delete_completes a ha)
        (delete-IsForeign a ha b1 b2 d.sb) (delete-Finishes a ha b1 b2 d.sb)
        (delete_replays a ha b1 b2 d.sb)
      ∙ sym (sb-delete a ha d ht he)
      ∙ later k d.sb _
