-- ===== src/Garbage/Collect.antt =====
-- src/garbage_collection.cpp: `collectGarbage`, and src/area.cpp: `findWritableArea`,
-- `findFirstFreePage` and `manageActiveAreaFull`, which call it or are called for it.
use paffs.Prelude.{
  Option, none, some, ℕ, zero, suc, ◌+◌, ◌-◌, ◌*◌, ◌/◌, Bool, true, false, not, ◌&&◌, ◌||◌, List,
  ltb, leb, ◌==◌, if◌then◌else◌,
}
use paffs.Types.{
  Result, ok, bug, no_space, is_ok, AreaType, garbage_buffer, is_unset, is_empty, SummaryEntry,
  free,
}
use paffs.Journal.{checkpoint, garbage_topic}
use paffs.Superblock
use paffs.Device.{Env, Device, log, set_active_area, swap_area_position}
use paffs.AreaMgmt.{status_of, pos_of, init_as, close, delete, delete_contents}
use paffs.Garbage.{
  GarbageOps, Favourite, is_active, erases_of, find_next_best_area, move_valid_data,
}

abbrev is_free : SummaryEntry → Bool
is_free free = true
is_free _ = false

module _ {F C P : Type 0} (e : Env F C P) (ops : GarbageOps F (Device F C P))
    (worse : Result → Result → Result) where
  abbrev D : Type 0
  D = Device F C P

  abbrev pub active_of : AreaType → D → ℕ
  active_of t d = Superblock.get_active_area e.config t d.sb

  abbrev pub garbage_area : D → ℕ
  garbage_area d = active_of garbage_buffer d

  -- Behind the copy or the deletion: the areas change places, and the freed one is taken into use.
  unfoldable pub take_over : AreaType → ℕ → D → Result × D
  take_over target area d = (
    ok,
    log e (checkpoint garbage_topic) (if is_unset target then d else init_as e area target d),
  )

  unfoldable pub put_back : AreaType → ℕ → List SummaryEntry → D → Result × D
  put_back target area summary d =
      let d1 : D = swap_area_position e area (garbage_area d) d in
      let (r, d2) = delete_contents e area (garbage_area d1) false d1 in
      let d3 : D = if is_ok r then d2 else set_active_area e garbage_buffer 0 d2 in
      let (r2, d4) = ops.set_summary area summary d3 in
      if is_ok r2 then take_over target area d4 else (r2, d4)

  -- An area with valid pages.
  unfoldable pub collect_valid : AreaType → Favourite → D → Result × D
  collect_valid target b d =
      let (r, (left, (summary, d1))) =
        move_valid_data e ops worse b.area (garbage_area d) b.summary d in
      if is_ok r then put_back target b.area summary d1 else (r, d1)

  -- `collectGarbage` calls itself where an area cannot be deleted; `none` is out of fuel.
  unfoldable pub collect_garbage : ℕ → AreaType → D → Option (Result × D)
  collect_garbage zero target d = none
  collect_garbage (suc fuel) target d =
      let (b, d1) = find_next_best_area e ops target d in
      let (r, d2) = delete e b.area d1 in
      let again : Option (Result × D) = collect_garbage fuel target d2 in
      if b.area == 0 || (b.valid && garbage_area d1 == 0)
      then some (no_space, d1)
      else if b.valid
      then some (collect_valid target b d1)
      else if is_ok r
      then some (take_over target b.area (swap_area_position e b.area (garbage_area d2) d2))
      else again

  -- The loop over the areas of `findWritableArea`: the first empty one that was not erased too
  -- often, or else the first empty one at all. The place of an area is compared with a type.
  unfoldable pub is_takeable : ℕ → D → Bool
  is_takeable a d = is_empty (status_of e a d) && not (pos_of e a d == 6)

  unfoldable pub is_fresh_enough : ℕ → D → Bool
  is_fresh_enough a d =
      ltb d.sb.deletions (e.config.areas_no * 2)
      || leb (erases_of e ops a d) (d.sb.deletions / e.config.areas_no / 2)

  -- `secondBestAreasDeletions` stays 0.
  unfoldable pub first_empty : ℕ → ℕ → ℕ → D → Option ℕ
  first_empty zero a second d = if second == 0 then none else some second
  first_empty (suc rounds) a second d =
      let skipped : Option ℕ = first_empty rounds (a + 1) second d in
      let noted : Option ℕ = first_empty rounds (a + 1) (if second == 0 then a else second) d in
      if not (is_takeable a d) then skipped else if is_fresh_enough a d then some a else noted

  -- What comes behind garbage collection; area 0 and a result for `lasterr`.
  unfoldable pub collected : AreaType → Result × D → Result × (ℕ × D)
  collected t (r, d) =
      let a : ℕ = active_of t d in
      if not (is_ok r)
      then (r, (0, d))
      else if a == 0
      then (bug, (0, d))
      else if is_active (status_of e a d)
      then (ok, (a, d))
      else (bug, (0, d))

  unfoldable pub find_writable_area : ℕ → ℕ → AreaType → D → Option (Result × (ℕ × D))
  find_writable_area min_free fuel t d =
      let collect : Option (Result × (ℕ × D)) = elim (collect_garbage fuel t d) [
        | none ↦ none
        | some rd ↦ some (collected t rd)
      ] in
      let taken : Option (Result × (ℕ × D)) = elim (first_empty e.config.areas_no 0 0 d) [
        | none ↦ collect
        | some a ↦ some (ok, (a, init_as e a t d))
      ] in
      if not (active_of t d == 0)
      then some (ok, (active_of t d, d))
      else if ltb d.sb.used (e.config.areas_no - min_free)
      then taken
      else collect

  -- `getPageStatus` of the summary cache.
  unfoldable pub find_first_free_page :
      (ℕ → ℕ → D → Result × (SummaryEntry × D)) → ℕ → ℕ → ℕ → D → Result × (ℕ × D)
  find_first_free_page status_at zero i a d = (no_space, (i, d))
  find_first_free_page status_at (suc rounds) i a d =
      let (r, (s, d1)) = status_at a i d in
      let rest = find_first_free_page status_at rounds (i + 1) a d1 in
      if is_free s then (ok, (i, d1)) else if is_ok r then rest else (r, (i, d1))

  unfoldable pub manage_active_area_full :
      (ℕ → ℕ → D → Result × (SummaryEntry × D)) → AreaType → D → Result × D
  manage_active_area_full status_at t d =
      let a : ℕ = active_of t d in
      let (r, (page, d1)) = find_first_free_page status_at e.config.data_pages_per_area 0 a d in
      if a == 0 then (ok, d) else if is_ok r then (ok, d1) else (ok, close e a d1)
