-- ===== src/AreaMgmt/Crash/Retire.antt =====
-- src/area.cpp, `retireArea`, broken off and recovered.
use paffs.Prelude.{
  ℕ, zero, suc, ◌+◌, ◌<◌, ◌≡◌, ap, sym, ◌∙◌, Bool, List, [], ◌∷◌, ◌++◌, if◌then◌else◌, ◌==◌, u16,
  arith,
}
use paffs.Types.{retired, closed, is_unset}
use paffs.Journal.{
  Entry, superblock_entry, area_mgmt, retire_area, map_type, map_status, used_areas,
}
use paffs.Superblock
use paffs.Superblock.{Superblock}
use paffs.Device.{Env, Device, log, set_type, set_status}
use paffs.Device.Effects.{sb-log, sb-set_type, sb-set_status}
use paffs.AreaMgmt.{retire, increase_if}
use paffs.AreaMgmt.Replay.{
  ExternOp, nothing, set_type_done, set_status_done, used_areas_done, replay, signal_end_of_log,
}
use paffs.AreaMgmt.Prefix.{within, IsForeign, recovered, Finishes, recovered_none, recovered_begun}
use paffs.AreaMgmt.Crash.{end_mark, raise_if, sb-increase_if, later}

module _ {F C P : Type 0} (e : Env F C P) where
  module _ (a : ℕ) where
    abbrev mark_retired : Superblock → Superblock
    mark_retired s = Superblock.store_type e.config a retired s

    -- What is left of `retireArea`.
    abbrev retire_rest : ExternOp → Superblock → Superblock
    retire_rest nothing s =
        let s1 : Superblock = Superblock.store_status e.config a closed s in
        mark_retired (raise_if e (is_unset (Superblock.get_type e.config a s1)) s1)
    retire_rest set_status_done s =
        mark_retired (raise_if e (is_unset (Superblock.get_type e.config a s)) s)
    retire_rest used_areas_done s = mark_retired s
    retire_rest _ s = s

    abbrev retire_used : Superblock → List Entry
    retire_used s1 =
        if is_unset (Superblock.get_type e.config a s1)
        then superblock_entry (used_areas (u16 (s1.used + 1))) ∷ []
        else []

    abbrev retire_body : Superblock → List Entry
    retire_body s =
        superblock_entry (map_status a closed)
          ∷ retire_used (Superblock.store_status e.config a closed s)
        ++ (superblock_entry (map_type a retired) ∷ [])

    -- What `retireArea` writes into the log.
    unfoldable pub retire_trace : Superblock → List Entry
    retire_trace s = area_mgmt (retire_area a) ∷ (retire_body s ++ end_mark e)

    module _ (ha : a < e.config.areas_no) where
      from_status :
          (d : Device F C P)
          → (set_type e a retired
              (increase_if e (is_unset (Superblock.get_type e.config a d.sb)) d)).sb
            ≡ retire_rest set_status_done d.sb
      from_status d =
          let b : Bool = is_unset (Superblock.get_type e.config a d.sb) in
          sb-set_type e a retired (increase_if e b d) ha ∙ ap mark_retired (sb-increase_if e b d)

      from_start :
          (d : Device F C P)
          → (set_type e a retired (
              increase_if e
                (is_unset (Superblock.get_type e.config a (set_status e a closed d).sb))
                (set_status e a closed d))).sb
            ≡ retire_rest nothing d.sb
      from_start d =
          from_status (set_status e a closed d)
          ∙ ap (retire_rest set_status_done) (sb-set_status e a closed d ha)

      retire_completes :
          (x : ExternOp) (d : Device F C P)
          → (signal_end_of_log e (within (retire_area a) x) d).sb ≡ retire_rest x d.sb
      unfolding signal_end_of_log
      retire_completes nothing d = sb-log e _ _ ∙ sb-log e _ _ ∙ from_start d
      retire_completes set_status_done d = sb-log e _ _ ∙ sb-log e _ _ ∙ from_status d
      retire_completes used_areas_done d =
          sb-log e _ _ ∙ sb-log e _ _ ∙ sb-set_type e a retired d ha
      retire_completes set_type_done d = sb-log e _ _ ∙ sb-log e _ _
      retire_completes _ d = sb-log e _ _

      sb-retire : (d : Device F C P) → (retire e a d).sb ≡ retire_rest nothing d.sb
      unfolding retire
      sb-retire d =
          let d0 : Device F C P = log e (area_mgmt (retire_area a)) d in
          sb-log e _ _
          ∙ from_start d0
          ∙ ap (retire_rest nothing) (sb-log e (area_mgmt (retire_area a)) d)

      retire-IsForeign : (s : Superblock) → IsForeign (retire_body s)
      retire-IsForeign s = ground arith

      retire-Finishes :
          (s : Superblock)
          → Finishes e retire_rest (retire_rest nothing s) nothing s (retire_body s)
      unfolding Superblock.pre_scan
      retire-Finishes s = ground arith

      retire_replays : (s : Superblock) → replay e (retire_body s) s ≡ retire_rest nothing s
      unfolding replay Superblock.pre_scan
      retire_replays s = ground arith

  -- For a valid area: when the log of `retireArea` breaks off after `k` entries, the area map after
  -- replay and recovery is the old one for k = 0, and else the one `retireArea` ends in, whatever
  -- cache, flash and journal the device restarts with.
  pub retire-crash_at :
      (a : ℕ) (d d' : Device F C P) (k : ℕ)
      → a < e.config.areas_no
      → recovered e d' d.sb k (retire_trace a d.sb) ≡ (if k == 0 then d.sb else (retire e a d).sb)
  unfolding retire_trace
  retire-crash_at a d d' zero ha = recovered_none e d' d.sb (retire_trace a d.sb)
  retire-crash_at a d d' (suc k) ha =
      recovered_begun e (retire_rest a) (retire_rest a nothing d.sb) (retire_area a)
        (retire_body a d.sb) d.sb d' k (retire_completes a ha) (retire-IsForeign a ha d.sb)
        (retire-Finishes a ha d.sb) (retire_replays a ha d.sb)
      ∙ sym (sb-retire a ha d)
      ∙ later k d.sb _
