-- ===== src/AreaMgmt/Trace.antt =====
-- The log of each operation of area management, entry by entry.
use paffs.Prelude.{
  ℕ, suc, ◌+◌, ◌<◌, ◌≡◌, refl, ap, ◌∙◌, Bool, true, false, List, [], ◌∷◌, ◌++◌, append_assoc,
  append-nil, if◌then◌else◌, u16, arith,
}
use paffs.Types.{AreaType, AreaStatus, type_no, retired, closed, is_empty, is_unset}
use paffs.Journal.{
  Entry, checkpoint, area_mgmt_topic, superblock_entry, area_mgmt, AreaEvent, init_area_as,
  close_area, retire_area, map_type, map_status, map_erasecount, active_area, used_areas,
}
use paffs.Journal.Log.{
  PersistenceLaws, Ready, Logged, add_event-Ready, add_event-Logged, add_event_checkpoint,
}
use paffs.Superblock
use paffs.Superblock.{Superblock}
use paffs.Superblock.Laws.{get_type-store_status}
use paffs.Device.{
  Env, Device, log, set_type, set_status, set_active_area, set_used_areas, increase_erasecount,
}
use paffs.AreaMgmt.{init_as, close, retire, increase_if, log_checkpoint, mark_area}
use paffs.AreaMgmt.Crash.Init.{init_trace}
use paffs.AreaMgmt.Crash.Close.{close_trace}
use paffs.AreaMgmt.Crash.Retire.{retire_trace}
use paffs.Device.Effects.{sb-log, sb-set_type, sb-set_status}

module _ {F C P : Type 0} (e : Env F C P) (laws : PersistenceLaws e.persistence) where
  -- Area management has begun an operation, and the log holds `shown`.
  abbrev pub Begun : List Entry → ℕ → Device F C P → Type 0
  Begun shown k d = Logged e.persistence laws e.config.mram_size area_mgmt_topic shown k d.journal

  -- The journal of a device that holds `shown`, with room for `k` entries.
  abbrev pub IsOpen : List Entry → ℕ → Device F C P → Type 0
  IsOpen shown k d = Ready e.persistence laws e.config.mram_size shown k d.journal

  abbrev pub entries_of : Device F C P → List Entry
  entries_of d = laws.entries d.journal.persistence

  module _ (shown : List Entry) (k : ℕ) (d : Device F C P) where
    pub begin :
        (x : AreaEvent)
        → IsOpen shown (suc k) d
        → Begun (shown ++ (area_mgmt x ∷ [])) k (log e (area_mgmt x) d)
    unfolding log
    begin x w =
        add_event-Ready e.persistence laws e.config.mram_size (area_mgmt x) d.journal shown k refl w

    pub type_step :
        (a : ℕ) (t : AreaType)
        → a < e.config.areas_no
        → Begun shown (suc k) d
        → Begun (shown ++ (superblock_entry (map_type a t) ∷ [])) k (set_type e a t d)
    unfolding set_type log
    type_step a t h w = ground (
      arith,
      add_event-Logged e.persistence laws e.config.mram_size area_mgmt_topic
          (superblock_entry (map_type a t)) d.journal shown k refl w,
    )

    pub status_step :
        (a : ℕ) (st : AreaStatus)
        → a < e.config.areas_no
        → Begun shown (suc k) d
        → Begun (shown ++ (superblock_entry (map_status a st) ∷ [])) k (set_status e a st d)
    unfolding set_status log
    status_step a st h w = ground (
      arith,
      add_event-Logged e.persistence laws e.config.mram_size area_mgmt_topic
          (superblock_entry (map_status a st)) d.journal shown k refl w,
    )

    pub erasecount_step :
        (a : ℕ)
        → a < e.config.areas_no
        → Begun shown (suc k) d
        → Begun (shown ++ (superblock_entry (map_erasecount a) ∷ [])) k (increase_erasecount e a d)
    unfolding increase_erasecount log
    erasecount_step a h w = ground (
      arith,
      add_event-Logged e.persistence laws e.config.mram_size area_mgmt_topic
          (superblock_entry (map_erasecount a)) d.journal shown k refl w,
    )

    active_step :
        (t : AreaType) (a : ℕ)
        → type_no t < 7
        → Begun shown (suc k) d
        → Begun (shown ++ (superblock_entry (active_area t a) ∷ [])) k (set_active_area e t a d)
    unfolding set_active_area log
    active_step t a h w = ground (
      arith,
      add_event-Logged e.persistence laws e.config.mram_size area_mgmt_topic
          (superblock_entry (active_area t a)) d.journal shown k refl w,
    )

    pub used_step :
        (n : ℕ)
        → Begun shown (suc k) d
        → Begun (shown ++ (superblock_entry (used_areas n) ∷ [])) k (set_used_areas e n d)
    unfolding set_used_areas log
    used_step n w =
        add_event-Logged e.persistence laws e.config.mram_size area_mgmt_topic
          (superblock_entry (used_areas n)) d.journal shown k refl w

    -- One entry, if the test holds; the room is there in either case.
    increase_step :
        (b : Bool)
        → Begun shown (suc k) d
        → Begun
            (shown ++ (if b then superblock_entry (used_areas (u16 (d.sb.used + 1))) ∷ [] else []))
            k
            (increase_if e b d)
    increase_step true w = used_step _ w
    increase_step false w = rw append-nil (weaken w)
      where
        weaken : Begun shown (suc k) d → Begun shown k d
        weaken w = ground arith

    pub finish :
        Begun shown (suc k) d
        → entries_of (log_checkpoint e d) ≡ shown ++ (checkpoint area_mgmt_topic ∷ [])
    unfolding log
    finish w =
        add_event_checkpoint e.persistence laws e.config.mram_size area_mgmt_topic d.journal shown k
          w

  -- For a valid area and type, and a journal that is enabled and has room for five entries, `initAreaAs`
  -- appends to the log exactly the entries of `init_trace`.
  pub init_as-logs :
      (a : ℕ) (t : AreaType) (shown : List Entry) (d : Device F C P)
      → a < e.config.areas_no
      → type_no t < 7
      → IsOpen shown 5 d
      → entries_of (init_as e a t d) ≡ shown ++ init_trace e a t d.sb
  unfolding init_as init_trace
  init_as-logs a t shown d ha ht w =
      let d1 : Device F C P = set_type e a t (log e (area_mgmt (init_area_as a t)) d) in
      let b : Bool = is_empty (Superblock.get_status e.config a d1.sb) in
      let w1 = type_step _ 3 _ a t ha (begin shown 4 d (init_area_as a t) w) in
      let w2 = increase_step _ 2 d1 b w1 in
      let w3 = active_step _ 1 (increase_if e b d1) t a ht w2 in
      finish _ 0 _ w3
      ∙ rw (sb-set_type e a t (log e (area_mgmt (init_area_as a t)) d) ha, sb-log e _ d)
          (simp append_assoc)

  -- For a valid area of a valid type, and a journal that is enabled and has room for four entries,
  -- `closeArea` appends to the log exactly the entries of `close_trace`.
  pub close-logs :
      (a : ℕ) (shown : List Entry) (d : Device F C P)
      → a < e.config.areas_no
      → type_no (Superblock.get_type e.config a d.sb) < 7
      → IsOpen shown 4 d
      → entries_of (close e a d) ≡ shown ++ close_trace e a d.sb
  unfolding close close_trace
  close-logs a shown d ha ht w =
      let d0 : Device F C P = log e (area_mgmt (close_area a)) d in
      let d1 : Device F C P = set_status e a closed d0 in
      let same_sb : d1.sb ≡ Superblock.store_status e.config a closed d.sb =
        sb-set_status e a closed d0 ha
        ∙ ap (Superblock.store_status e.config a closed) (sb-log e _ d) in
      let low : type_no (Superblock.get_type e.config a d1.sb) < 7 =
        rw (same_sb, get_type-store_status) ht in
      let w1 = status_step _ 2 d0 a closed ha (begin shown 3 d (close_area a) w) in
      let w2 = active_step _ 1 d1 (Superblock.get_type e.config a d1.sb) 0 low w1 in
      finish _ 0 _ w2 ∙ rw same_sb (simp append_assoc)

  -- For a valid area, and a journal that is enabled and has room for five entries, `retireArea`
  -- appends to the log exactly the entries of `retire_trace`.
  pub retire-logs :
      (a : ℕ) (shown : List Entry) (d : Device F C P)
      → a < e.config.areas_no
      → IsOpen shown 5 d
      → entries_of (retire e a d) ≡ shown ++ retire_trace e a d.sb
  unfolding retire retire_trace
  retire-logs a shown d ha w =
      let d0 : Device F C P = log e (area_mgmt (retire_area a)) d in
      let d1 : Device F C P = set_status e a closed d0 in
      let same_sb : d1.sb ≡ Superblock.store_status e.config a closed d.sb =
        sb-set_status e a closed d0 ha
        ∙ ap (Superblock.store_status e.config a closed) (sb-log e _ d) in
      let b : Bool = is_unset (Superblock.get_type e.config a d1.sb) in
      let w1 = status_step _ 3 d0 a closed ha (begin shown 4 d (retire_area a) w) in
      let w2 = increase_step _ 2 d1 b w1 in
      let w3 = type_step _ 1 (increase_if e b d1) a retired ha w2 in
      finish _ 0 (mark_area e a (set_type e a retired (increase_if e b d1))) w3
      ∙ rw same_sb (simp append_assoc)
