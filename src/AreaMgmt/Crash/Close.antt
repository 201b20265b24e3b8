-- ===== src/AreaMgmt/Crash/Close.antt =====
-- src/area.cpp, `closeArea`, broken off and recovered.
use paffs.Prelude.{
  ℕ, zero, suc, ◌<◌, ◌≡◌, sym, ◌∙◌, List, [], ◌∷◌, ◌++◌, if◌then◌else◌, ◌==◌, arith,
}
use paffs.Types.{type_no, closed}
use paffs.Journal.{Entry, superblock_entry, area_mgmt, close_area, map_status, active_area}
use paffs.Superblock
use paffs.Superblock.{Superblock}
use paffs.Superblock.Laws.{get_type-store_status}
use paffs.Device.{Env, Device, log, set_active_area, set_status}
use paffs.Device.Effects.{sb-log, sb-set_status}
use paffs.AreaMgmt.{close}
use paffs.AreaMgmt.Replay.{
  ExternOp, nothing, set_status_done, set_active_done, replay, signal_end_of_log,
}
use paffs.AreaMgmt.Prefix.{within, IsForeign, recovered, Finishes, recovered_none, recovered_begun}
use paffs.AreaMgmt.Crash.{end_mark, later, put_active, sb-put_active}

module _ {F C P : Type 0} (e : Env F C P) where
  module _ (a : ℕ) where
    -- What is left of `closeArea`.
    abbrev close_rest : ExternOp → Superblock → Superblock
    close_rest nothing s =
        let s1 : Superblock = Superblock.store_status e.config a closed s in
        put_active e (Superblock.get_type e.config a s1) 0 s1
    close_rest set_status_done s = put_active e (Superblock.get_type e.config a s) 0 s
    close_rest _ s = s

    abbrev close_body : Superblock → List Entry
    close_body s =
        superblock_entry (map_status a closed)
        ∷ superblock_entry (
            active_area
              (Superblock.get_type e.config a (Superblock.store_status e.config a closed s)) 0)
        ∷ []

    -- What `closeArea` writes into the log.
    unfoldable pub close_trace : Superblock → List Entry
    close_trace s = area_mgmt (close_area a) ∷ (close_body s ++ end_mark e)

    module _ (ha : a < e.config.areas_no) where
      active_step :
          (d : Device F C P)
          → (set_active_area e (Superblock.get_type e.config a d.sb) 0 d).sb
            ≡ put_active e (Superblock.get_type e.config a d.sb) 0 d.sb
      active_step d = sb-put_active e (Superblock.get_type e.config a d.sb) 0 d

      from_start :
          (d : Device F C P)
          → put_active e
              (Superblock.get_type e.config a (set_status e a closed d).sb)
              0
              (set_status e a closed d).sb
            ≡ close_rest nothing d.sb
      from_start d = rw (sb-set_status e a closed d ha)

      close_completes :
          (x : ExternOp) (d : Device F C P)
          → (signal_end_of_log e (within (close_area a) x) d).sb ≡ close_rest x d.sb
      unfolding signal_end_of_log
      close_completes nothing d =
          sb-log e _ _ ∙ sb-log e _ _ ∙ active_step (set_status e a closed d) ∙ from_start d
      close_completes set_status_done d = sb-log e _ _ ∙ sb-log e _ _ ∙ active_step d
      close_completes set_active_done d = sb-log e _ _ ∙ sb-log e _ _
      close_completes _ d = sb-log e _ _

      sb-close : (d : Device F C P) → (close e a d).sb ≡ close_rest nothing d.sb
      unfolding close
      sb-close d =
          let d0 : Device F C P = log e (area_mgmt (close_area a)) d in
          sb-log e _ _
          ∙ active_step (set_status e a closed d0)
          ∙ from_start d0
          ∙ rw (sb-log e (area_mgmt (close_area a)) d)

      close-IsForeign : (s : Superblock) → IsForeign (close_body s)
      close-IsForeign s = ground arith

      module _ (s : Superblock) (ht : type_no (Superblock.get_type e.config a s) < 7) where
        close-Finishes : Finishes e close_rest (close_rest nothing s) nothing s (close_body s)
        unfolding Superblock.pre_scan
        close-Finishes = ground (arith, get_type-store_status e.config a a closed s)

        close_replays : replay e (close_body s) s ≡ close_rest nothing s
        unfolding replay Superblock.pre_scan
        close_replays = ground (arith, get_type-store_status e.config a a closed s)

  -- For a valid area of a valid type: when the log of `closeArea` breaks off after `k` entries, the
  -- area map after replay and recovery is the old one for k = 0, and else the one `closeArea` ends
  -- in, whatever cache, flash and journal the device restarts with.
  pub close-crash_at :
      (a : ℕ) (d d' : Device F C P) (k : ℕ)
      → a < e.config.areas_no
      → type_no (Superblock.get_type e.config a d.sb) < 7
      → recovered e d' d.sb k (close_trace a d.sb) ≡ (if k == 0 then d.sb else (close e a d).sb)
  unfolding close_trace
  close-crash_at a d d' zero ha ht = recovered_none e d' d.sb (close_trace a d.sb)
  close-crash_at a d d' (suc k) ha ht =
      recovered_begun e (close_rest a) (close_rest a nothing d.sb) (close_area a)
        (close_body a d.sb) d.sb d' k (close_completes a ha) (close-IsForeign a ha d.sb)
        (close-Finishes a ha d.sb ht) (close_replays a ha d.sb ht)
      ∙ sym (sb-close a ha d)
      ∙ later k d.sb _
