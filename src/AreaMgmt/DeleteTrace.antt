-- ===== src/AreaMgmt/DeleteTrace.antt =====
-- The log of `deleteArea`, entry by entry.
use paffs.Prelude.{
  ℕ, suc, ◌+◌, ◌-◌, ◌*◌, ◌<◌, ◌≡◌, refl, ap, ◌∙◌, true, false, List, [], ◌∷◌, ◌++◌, append_assoc,
  append-nil, if◌then◌else◌, u16, arith,
}
use paffs.Types.{unset, empty, is_retired}
use paffs.Journal.{
  Entry, checkpoint, area_mgmt_topic, superblock_entry, area_mgmt, delete_area, map_type,
  map_status, map_erasecount, used_areas, summary_cache, reset, remove,
}
use paffs.Journal.Log.{PersistenceLaws, add_event-Logged}
use paffs.Superblock
use paffs.Superblock.{Superblock}
use paffs.Device.{
  Env, Device, log, set_type, set_status, set_used_areas, increase_erasecount, reset_as_written,
  delete_summary,
}
use paffs.Device.Effects.{
  sb-log, sb-set_type, sb-set_status, sb-increase_erasecount, sb-reset_as_written,
  sb-delete_summary,
}
use paffs.AreaMgmt.{delete, log_checkpoint, erase_blocks}
use paffs.AreaMgmt.Crash.Delete.{
  delete_trace, is_cached, is_cached_cleared, one_if, erased, contents-begun, delete-fine,
}
use paffs.AreaMgmt.Trace.{
  Begun, IsOpen, entries_of, begin, type_step, status_step, erasecount_step, used_step, finish,
}

module _ {F C P : Type 0} (e : Env F C P) (laws : PersistenceLaws e.persistence) where
  module _ (a : ℕ) (shown : List Entry) (k : ℕ) (d : Device F C P) where
    reset_step :
        Begun e laws shown (suc k) d
        → Begun e laws
            (shown ++ one_if e a (is_cached e a d) (summary_cache (reset a)))
            k
            (reset_as_written e a d)
    unfolding reset_as_written log
    reset_step w = ground (
      arith,
      append-nil shown,
      add_event-Logged e.persistence laws e.config.mram_size area_mgmt_topic
          (summary_cache (reset a)) d.journal shown k refl w,
    )

    remove_step :
        Begun e laws shown (suc k) d
        → Begun e laws
            (shown ++ one_if e a (is_cached e a d) (summary_cache (remove a)))
            k
            (delete_summary e a d)
    unfolding delete_summary log
    remove_step w = ground (
      arith,
      append-nil shown,
      add_event-Logged e.persistence laws e.config.mram_size area_mgmt_topic
          (summary_cache (remove a)) d.journal shown k refl w,
    )

  cache-increase_erasecount :
      (a : ℕ) (d : Device F C P) → (increase_erasecount e a d).cache ≡ d.cache
  unfolding increase_erasecount log
  cache-increase_erasecount a d = ground arith

  cached_after_reset :
      (a : ℕ) (d : Device F C P)
      → e.summary.exists_elem a (reset_as_written e a d).cache ≡ is_cached_cleared e a d
  unfolding reset_as_written log
  cached_after_reset a d = ground arith

  module _ (a : ℕ) (d : Device F C P) (ha : a < e.config.areas_no) where
    abbrev d0 : Device F C P
    d0 = log e (area_mgmt (delete_area a)) d

    abbrev d1 : Device F C P
    d1 = increase_erasecount e a (erased e a ha d0)

    abbrev d2 : Device F C P
    d2 = reset_as_written e a d1

    abbrev d3 : Device F C P
    d3 = delete_summary e a d2

    abbrev d5 : Device F C P
    d5 = set_type e a unset (set_status e a empty d3)

    abbrev final_sb : Superblock
    final_sb =
        Superblock.store_type e.config a unset
          (Superblock.store_status e.config a empty (Superblock.store_erasecount e.config a d.sb))

    same_sb : d5.sb ≡ final_sb
    same_sb =
        sb-set_type e a unset _ ha
        ∙ ap (Superblock.store_type e.config a unset) (
            sb-set_status e a empty _ ha
            ∙ ap (Superblock.store_status e.config a empty) (
                sb-delete_summary e a _
                ∙ sb-reset_as_written e a _
                ∙ sb-increase_erasecount e a _ ha
                ∙ ap (Superblock.store_erasecount e.config a) (sb-log e _ d)))

    same_cache : d1.cache ≡ d.cache
    unfolding log
    same_cache = cache-increase_erasecount a (erased e a ha d0)

    first_flag : is_cached e a d1 ≡ is_cached e a d
    first_flag = ap (e.summary.exists_elem a) same_cache

    second_flag : is_cached e a d2 ≡ is_cached_cleared e a d
    second_flag =
        cached_after_reset a d1
        ∙ ap
            (λ c.
              e.summary.exists_elem a
                (if e.summary.exists_elem a c then e.summary.clear_written a c else c))
            same_cache

    -- The entries in the order in which they are written, over the flags of the later states.
    appended_trace : List Entry → List Entry
    appended_trace shown =
        ((((((shown ++ (area_mgmt (delete_area a) ∷ []))
                  ++ (superblock_entry (map_erasecount a) ∷ []))
                ++ one_if e a (is_cached e a d1) (summary_cache (reset a)))
              ++ one_if e a (is_cached e a d2) (summary_cache (remove a)))
            ++ (superblock_entry (map_status a empty) ∷ []))
          ++ (superblock_entry (map_type a unset) ∷ []))
        ++ (superblock_entry (used_areas (u16 (d5.sb.used + 65536 - 1))) ∷ [])
        ++ (checkpoint area_mgmt_topic ∷ [])

    appended-trace : (shown : List Entry) → appended_trace shown ≡ shown ++ delete_trace e a d
    unfolding appended_trace delete_trace
    appended-trace shown = rw (first_flag, second_flag, same_sb) (simp append_assoc)

    logs_all :
        (shown : List Entry)
        → IsOpen e laws shown 8 d
        → entries_of e laws (log_checkpoint e (set_used_areas e (u16 (d5.sb.used + 65536 - 1)) d5))
          ≡ appended_trace shown
    unfolding appended_trace
    logs_all shown w =
        let w1 : Begun e laws _ 6 d1 =
          erasecount_step e laws _ 6 (erased e a ha d0) a ha
            (begin e laws shown 7 d (delete_area a) w) in
        let w2 = reset_step a _ 5 d1 w1 in
        let w3 = remove_step a _ 4 d2 w2 in
        let w4 = status_step e laws _ 3 d3 a empty ha w3 in
        let w5 = type_step e laws _ 2 (set_status e a empty d3) a unset ha w4 in
        let w6 = used_step e laws _ 1 d5 (u16 (d5.sb.used + 65536 - 1)) w5 in finish e laws _ 0 _ w6

  -- For a valid area that is not retired and whose blocks the driver erases, and a journal that is
  -- enabled and has room for eight entries, `deleteArea` appends to the log exactly the entries of
  -- `delete_trace`.
  pub delete-logs :
      (a : ℕ) (shown : List Entry) (d : Device F C P)
      → a < e.config.areas_no
      → is_retired (Superblock.get_type e.config a d.sb) ≡ false
      → (erase_blocks e e.config.blocks_per_area
          (Superblock.get_pos e.config a d.sb * e.config.blocks_per_area)
          d.flash).0
        ≡ true
      → IsOpen e laws shown 8 d
      → entries_of e laws (delete e a d).1 ≡ shown ++ delete_trace e a d
  delete-logs a shown d ha ht he w =
      ap (λ r. entries_of e laws r.1) (delete-fine e a ha d ht (contents-begun e a ha d ht he))
      ∙ logs_all a d ha shown w
      ∙ appended-trace a d ha shown
