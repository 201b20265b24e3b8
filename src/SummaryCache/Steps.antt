-- ===== src/SummaryCache/Steps.antt =====
-- src/summaryCache.cpp, `SummaryCache`: the operations that read and write flash and the journal.
-- `n` is `dataPagesPerArea`, `size` is `areaSummaryCacheSize`.
use paffs.Prelude.{
  ℕ, table, Bool, true, false, not, ◌&&◌, ◌||◌, List, Option, none, some, ltb, ◌==◌, if◌then◌else◌,
  get_or, set,
}
use paffs.Types.{
  Result, ok, bug, invalid_input, not_found, no_space, is_ok, AreaStatus, SummaryEntry, free, error,
}
use paffs.BitList.TwoBit
use paffs.AreaSummary.{
  Elem, clear, is_written, is_used, set_dirty, set_written, set_area, set_dirty_pages, get_status,
  set_status, status_in, same_entry, is_dirty_entry, count_dirty, get_area, is_corrected,
  write_summary, pack_status,
}
use paffs.SummaryCache.{
  Cache, is_some, or_zero, exists_elem, elem_of, with_elem, enable_elem, remove_elem,
  find_free_entry, drop_clean, favourite,
}

-- The flash, the journal and what else the cache calls.
pub record CacheOps (W : Type 0) : Type 0 where
  -- `readAreasummary` into the entries of an element.
  pub read_summary : ℕ → List ℕ → W → Result × List ℕ
  pub write_page : ℕ → List ℕ → W → Result × W
  pub log_commit : ℕ → W → W
  pub log_status : ℕ → ℕ → SummaryEntry → W → W
  pub log_block : ℕ → List ℕ → W → W
  -- What `freeNextBestSummaryCacheEntry` does once it needs garbage collection.
  pub collect : Cache → W → Result × (Cache × W)

module _ {W : Type 0} (ops : CacheOps W) (n size : ℕ) (is_packed : Bool) where
  abbrev Step : Type 0
  Step = Result × (Cache × W)

  abbrev write_elem : Bool → Elem → W → Result × (Elem × W)
  write_elem is_replay e w = write_summary ops.write_page ops.log_commit n is_packed is_replay e w

  -- `commitAndEraseElem`
  unfoldable pub commit_and_erase : Bool → ℕ → Cache → W → Step
  commit_and_erase is_replay pos c w =
      let e : Elem = get_or c.elems pos (clear n) in
      let r : Result × (Elem × W) = write_elem is_replay e w in
      let c' : Cache = record c { elems = set c.elems pos r.1.0 } in
      if not (is_used e)
      then (ok, (c, w))
      else if is_ok r.0
      then (ok, (remove_elem n (get_area r.1.0) c', r.1.1))
      else (r.0, (c', r.1.1))

  -- The part of `loadUnbufferedArea` behind the search for a place.
  unfoldable pub load_at : ℕ → ℕ → Cache → W → Step
  load_at pos area c w =
      let c' : Cache = enable_elem n pos area c in
      let e : Elem = elem_of n area c' in
      let r : Result × List ℕ = ops.read_summary area e.entries w in
      let filled : Elem = record e { entries = r.1 } in
      let marked : Elem = set_dirty (is_corrected r.0) (set_written true filled) in
      let loaded : Elem = set_dirty_pages (count_dirty n marked) marked in
      if is_ok r.0 || is_corrected r.0
      then (ok, (with_elem n area loaded c', w))
      else (unless_missing r.0, (with_elem n area filled c', w))
    where
      unless_missing : Result → Result
      unless_missing not_found = ok
      unless_missing r = r

  unfoldable pub free_next : (ℕ → AreaStatus) → Bool → Bool → Cache → W → Step
  free_next status is_replay urgent c w =
      let dropped : Bool × Cache = drop_clean n status size 0 false c in
      let fav : Option ℕ = favourite n status size 0 none 0 c in
      if dropped.0
      then (ok, (dropped.1, w))
      else if is_some fav
      then commit_and_erase is_replay (or_zero fav) c w
      else if urgent
      then ops.collect c w
      else (not_found, (c, w))

  abbrev no_place : Bool → Result → Result
  no_place false not_found = no_space
  no_place urgent r = r

  abbrev load_found : Option ℕ → ℕ → Cache → W → Step
  load_found none area c w = (bug, (c, w))
  load_found (some pos) area c w = load_at pos area c w

  unfoldable pub load_unbuffered : (ℕ → AreaStatus) → Bool → ℕ → Bool → Cache → W → Step
  load_unbuffered status is_replay area urgent c w =
      let r : Step = free_next status is_replay urgent c w in
      let again : Step = load_found (find_free_entry n size r.1.0) area r.1.0 r.1.1 in
      if is_some (find_free_entry n size c)
      then load_found (find_free_entry n size c) area c w
      else if is_ok r.0
      then again
      else (no_place urgent r.0, r.1)

  -- The part of `setPageStatus` behind the journal entry.
  unfoldable pub store_page_status : Bool → ℕ → ℕ → SummaryEntry → Cache → W → Step
  store_page_status is_replay area page state c w =
      let e : Elem = set_status n page state (elem_of n area c) in
      let c' : Cache = with_elem n area e c in
      let r : Result × (Elem × W) = write_elem false e w in
      let full : Bool =
        not is_replay && (is_dirty_entry state && ((e.dirty_pages == n) && not (is_written e))) in
      if full then (r.0, (with_elem n area r.1.0 c', r.1.1)) else (ok, (c', w))

  unfoldable pub set_cached_status : (ℕ → Bool) → Bool → ℕ → ℕ → SummaryEntry → Cache → W → Step
  set_cached_status is_unset is_replay area page state c w =
      if is_unset area
      then (bug, (c, w))
      else if same_entry (get_status n (elem_of n area c) page) state
      then (ok, (c, w))
      else store_page_status is_replay area page state c (ops.log_status area page state w)

  unfoldable pub set_page_status :
      Bool → (ℕ → AreaStatus) → (ℕ → Bool) → Bool → ℕ → ℕ → SummaryEntry → Cache → W → Step
  set_page_status read_only status is_unset is_replay area page state c w =
      let r : Step = load_unbuffered status is_replay area true c w in
      if read_only
      then (bug, (c, w))
      else if area == 0
      then (bug, (c, w))
      else if ltb n page
      then (invalid_input, (c, w))
      else if exists_elem n area c
      then set_cached_status is_unset is_replay area page state c w
      else if is_ok r.0
      then set_cached_status is_unset is_replay area page state r.1.0 r.1.1
      else r

  -- `getPageStatus`: without a place in the cache, the summary is read for this one question.
  unfoldable pub read_status : ℕ → ℕ → W → Result × SummaryEntry
  read_status area page w =
      let r : Result × List ℕ = ops.read_summary area (TwoBit.clear n) w in
      if is_ok r.0 || is_corrected r.0 then (ok, status_in n page r.1) else status_missing r.0
    where
      status_missing : Result → Result × SummaryEntry
      status_missing not_found = (ok, free)
      status_missing r = (r, error)

  abbrev is_no_space : Result → Bool
  is_no_space no_space = true
  is_no_space _ = false

  unfoldable pub get_page_status :
      (ℕ → AreaStatus) → Bool → ℕ → ℕ → Cache → W → Result × (SummaryEntry × (Cache × W))
  get_page_status status is_replay area page c w =
      let r : Step = load_unbuffered status is_replay area false c w in
      let once : Result × SummaryEntry = read_status area page r.1.1 in
      if ltb n page
      then (invalid_input, (error, (c, w)))
      else if exists_elem n area c
      then (ok, (get_status n (elem_of n area c) page, (c, w)))
      else if is_ok r.0
      then (ok, (get_status n (elem_of n area r.1.0) page, r.1))
      else if is_no_space r.0
      then (once.0, (once.1, r.1))
      else (r.0, (error, r.1))

  -- `setSummaryStatus`; `buffer` is the active area of the type garbageBuffer.
  unfoldable pub write_direct : Bool → ℕ → (ℕ → SummaryEntry) → W → W
  write_direct is_replay buffer statuses w =
      let e : Elem = pack_status n n 0 statuses (set_area buffer (clear n)) in
      (write_elem is_replay e w).1.1

  abbrev is_not_found : Result → Bool
  is_not_found not_found = true
  is_not_found _ = false

  unfoldable pub pack_cached : ℕ → (ℕ → SummaryEntry) → Cache → W → Step
  pack_cached area statuses c w =
      let e : Elem = pack_status n n 0 statuses (elem_of n area c) in
      (ok, (with_elem n area e c, ops.log_block area e.entries w))

  unfoldable pub set_summary_status :
      (ℕ → AreaStatus) → Bool → ℕ → ℕ → (ℕ → SummaryEntry) → Cache → W → Step
  set_summary_status status is_replay buffer area statuses c w =
      let r : Step = load_unbuffered status is_replay area false c w in
      if exists_elem n area c
      then pack_cached area statuses c w
      else if is_ok r.0
      then pack_cached area statuses r.1.0 r.1.1
      else if is_not_found r.0
      then (ok, (r.1.0, write_direct is_replay buffer statuses r.1.1))
      else r

  -- `getSummaryStatus`, into the array `summary`.
  unfoldable pub get_summary_status : ℕ → Cache → W → Result × List SummaryEntry
  get_summary_status area c w =
      let r : Result × List ℕ = ops.read_summary area (TwoBit.clear n) w in
      if exists_elem n area c
      then (ok, table n 0 (get_status n (elem_of n area c)))
      else (if is_not_found r.0 then ok else r.0, table n 0 (λ i. status_in n i r.1))
