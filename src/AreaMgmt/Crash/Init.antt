-- ===== src/AreaMgmt/Crash/Init.antt =====
-- src/area.cpp, `initAreaAs`, broken off and recovered.
use paffs.Prelude.{
  ℕ, zero, suc, ◌+◌, ◌<◌, ◌≡◌, ap, sym, ◌∙◌, Bool, List, [], ◌∷◌, ◌++◌, if◌then◌else◌, ◌==◌, u16,
  arith,
}
use paffs.Types.{AreaType, type_no, is_empty}
use paffs.Journal.{
  Entry, superblock_entry, area_mgmt, init_area_as, map_type, active_area, used_areas,
}
use paffs.Superblock
use paffs.Superblock.{Superblock}
use paffs.Device.{Env, Device, log, set_type}
use paffs.Device.Effects.{sb-log, sb-set_type, sb-set_active_area}
use paffs.AreaMgmt.{init_as, increase_if}
use paffs.AreaMgmt.Replay.{
  ExternOp, nothing, set_type_done, set_active_done, used_areas_done, replay, signal_end_of_log,
}
use paffs.AreaMgmt.Prefix.{within, IsForeign, recovered, Finishes, recovered_none, recovered_begun}
use paffs.AreaMgmt.Crash.{end_mark, raise_if, sb-increase_if, later}

module _ {F C P : Type 0} (e : Env F C P) where
  module _ (a : ℕ) (t : AreaType) where
    -- What is left of `initAreaAs`.
    abbrev init_rest : ExternOp → Superblock → Superblock
    init_rest nothing s =
        let s1 : Superblock = Superblock.store_type e.config a t s in
        Superblock.store_active_area e.config t a
          (raise_if e (is_empty (Superblock.get_status e.config a s1)) s1)
    init_rest set_type_done s =
        Superblock.store_active_area e.config t a
          (raise_if e (is_empty (Superblock.get_status e.config a s)) s)
    init_rest used_areas_done s = Superblock.store_active_area e.config t a s
    init_rest _ s = s

    abbrev init_used : Superblock → List Entry
    init_used s1 =
        if is_empty (Superblock.get_status e.config a s1)
        then superblock_entry (used_areas (u16 (s1.used + 1))) ∷ []
        else []

    abbrev init_body : Superblock → List Entry
    init_body s =
        superblock_entry (map_type a t) ∷ init_used (Superblock.store_type e.config a t s)
        ++ (superblock_entry (active_area t a) ∷ [])

    -- What `initAreaAs` writes into the log.
    unfoldable pub init_trace : Superblock → List Entry
    init_trace s = area_mgmt (init_area_as a t) ∷ (init_body s ++ end_mark e)

    module _ (ha : a < e.config.areas_no) (ht : type_no t < 7) where
      init_completes :
          (x : ExternOp) (d : Device F C P)
          → (signal_end_of_log e (within (init_area_as a t) x) d).sb ≡ init_rest x d.sb
      unfolding signal_end_of_log
      init_completes nothing d =
          let d1 : Device F C P = set_type e a t d in
          let b : Bool = is_empty (Superblock.get_status e.config a d1.sb) in
          sb-log e _ _
          ∙ sb-log e _ _
          ∙ sb-set_active_area e t a (increase_if e b d1) ht
          ∙ ap (Superblock.store_active_area e.config t a) (sb-increase_if e b d1)
          ∙ rw (sb-set_type e a t d ha)
      init_completes set_type_done d =
          let b : Bool = is_empty (Superblock.get_status e.config a d.sb) in
          sb-log e _ _
          ∙ sb-log e _ _
          ∙ sb-set_active_area e t a (increase_if e b d) ht
          ∙ ap (Superblock.store_active_area e.config t a) (sb-increase_if e b d)
      init_completes used_areas_done d = sb-log e _ _ ∙ sb-log e _ _ ∙ sb-set_active_area e t a d ht
      init_completes set_active_done d = sb-log e _ _ ∙ sb-log e _ _
      init_completes _ d = sb-log e _ _

      sb-init_as : (d : Device F C P) → (init_as e a t d).sb ≡ init_rest nothing d.sb
      unfolding init_as
      sb-init_as d =
          let d0 : Device F C P = log e (area_mgmt (init_area_as a t)) d in
          let d1 : Device F C P = set_type e a t d0 in
          let b : Bool = is_empty (Superblock.get_status e.config a d1.sb) in
          sb-log e _ _
          ∙ sb-set_active_area e t a (increase_if e b d1) ht
          ∙ ap (Superblock.store_active_area e.config t a) (sb-increase_if e b d1)
          ∙ rw (sb-set_type e a t d0 ha, sb-log e (area_mgmt (init_area_as a t)) d)

      init-Finishes :
          (s : Superblock) → Finishes e init_rest (init_rest nothing s) nothing s (init_body s)
      unfolding Superblock.pre_scan
      init-Finishes s = ground arith

      init-IsForeign : (s : Superblock) → IsForeign (init_body s)
      init-IsForeign s = ground arith

      init_replays : (s : Superblock) → replay e (init_body s) s ≡ init_rest nothing s
      unfolding replay Superblock.pre_scan
      init_replays s = ground arith

  -- For a valid area and type: when the log of `initAreaAs` breaks off after `k` entries, the area
  -- map after replay and recovery is the old one for k = 0, and else the one `initAreaAs` ends in,
  -- whatever cache, flash and journal the device restarts with.
  pub init_as-crash_at :
      (a : ℕ) (t : AreaType) (d d' : Device F C P) (k : ℕ)
      → a < e.config.areas_no
      → type_no t < 7
      → recovered e d' d.sb k (init_trace a t d.sb)
        ≡ (if k == 0 then d.sb else (init_as e a t d).sb)
  unfolding init_trace
  init_as-crash_at a t d d' zero ha ht = recovered_none e d' d.sb (init_trace a t d.sb)
  init_as-crash_at a t d d' (suc k) ha ht =
      recovered_begun e (init_rest a t) (init_rest a t nothing d.sb) (init_area_as a t)
        (init_body a t d.sb) d.sb d' k (init_completes a t ha ht) (init-IsForeign a t ha ht d.sb)
        (init-Finishes a t ha ht d.sb) (init_replays a t ha ht d.sb)
      ∙ sym (sb-init_as a t ha ht d)
      ∙ later k d.sb _
