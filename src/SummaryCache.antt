-- ===== src/SummaryCache.antt =====
-- src/summaryCache.cpp, `SummaryCache`: the elements in the cache, found by their area. The map
-- `mTranslation` is an association list. `n` is `dataPagesPerArea`.
pub mod Steps
pub mod Entries
pub mod Pages
pub mod Blocks
use paffs.Prelude.{
  ℕ, zero, suc, ◌+◌, ◌-◌, ◌≤◌, ◌<◌, Bool, true, false, not, ◌&&◌, ◌||◌, List, [], ◌∷◌, Option, none,
  some, ltb, leb, ◌==◌, if◌then◌else◌, get_or, set,
}
use paffs.Types.{
  Result, ok, bug, invalid_input, not_found, no_space, biterror_corrected, is_ok, AreaStatus,
  active, empty, is_empty, SummaryEntry, free, used, dirty, error,
}
use paffs.Device.{SummaryOps}
use paffs.BitList.TwoBit
use paffs.AreaSummary.{
  Elem, clear, is_dirty, is_written, is_loaded, is_used, set_dirty, set_written, set_area,
  set_dirty_pages, get_status, set_status, status_in, same_entry, is_dirty_entry, count_dirty,
  count_used, get_area, is_corrected, write_summary, pack_status,
}

pub record Cache : Type 0 where
  pub elems : List Elem
  pub translation : List (ℕ × ℕ)  -- the positions of the areas

unfoldable pub find : ℕ → List (ℕ × ℕ) → Option ℕ
find area [] = none
find area (e ∷ es) = if e.0 == area then some e.1 else find area es

unfoldable pub drop : ℕ → List (ℕ × ℕ) → List (ℕ × ℕ)
drop area [] = []
drop area (e ∷ es) = if e.0 == area then es else e ∷ drop area es

-- The index of the first of `r` elements from `i` on that is not in use.
unfoldable pub free_entry_from : ℕ → ℕ → List Elem → Option ℕ
free_entry_from i zero es = none
free_entry_from i (suc r) [] = none
free_entry_from i (suc r) (e ∷ es) = if is_used e then free_entry_from (i + 1) r es else some i

abbrev pub or_zero : Option ℕ → ℕ
or_zero none = 0
or_zero (some i) = i

abbrev pub is_some : Option ℕ → Bool
is_some none = false
is_some (some i) = true

abbrev pub is_active : AreaStatus → Bool
is_active active = true
is_active _ = false

module _ (n : ℕ) where
  unfoldable pub exists_elem : ℕ → Cache → Bool
  exists_elem area c = is_some (find area c.translation)

  -- `getSummaryElemPos`; a missing area answers 0.
  unfoldable pub elem_pos : ℕ → Cache → ℕ
  elem_pos area c = or_zero (find area c.translation)

  unfoldable pub elem_of : ℕ → Cache → Elem
  elem_of area c = get_or c.elems (elem_pos area c) (clear n)

  unfoldable pub with_elem : ℕ → Elem → Cache → Cache
  with_elem area e c = record c { elems = set c.elems (elem_pos area c) e }

  unfoldable pub enable_elem : ℕ → ℕ → Cache → Cache
  enable_elem pos area c = record {
    elems = set c.elems pos (set_area area (get_or c.elems pos (clear n)));
    translation = (area, pos) ∷ drop area c.translation;
  }

  unfoldable pub remove_elem : ℕ → Cache → Cache
  remove_elem area c =
      if exists_elem area c
      then record {
        elems = set c.elems (elem_pos area c) (clear n);
        translation = drop area c.translation;
      }
      else c

  unfoldable pub find_free_entry : ℕ → Cache → Option ℕ
  find_free_entry size c = free_entry_from 0 size c.elems

  unfoldable pub should_clear : ℕ → Cache → Bool
  should_clear area c =
      exists_elem area c && (is_written (elem_of area c) && is_dirty (elem_of area c))

  unfoldable pub was_written : (ℕ → AreaStatus) → ℕ → Cache → Bool
  was_written status area c =
      if exists_elem area c then is_written (elem_of area c) else not (is_empty (status area))

  -- The loop of `freeNextBestSummaryCacheEntry` that drops what is unchanged, from `i` on.
  unfoldable pub is_droppable : (ℕ → AreaStatus) → Elem → Bool
  is_droppable status e =
      is_used e && (not (is_dirty e || is_loaded e) || is_empty (status (get_area e)))

  unfoldable pub drop_clean : (ℕ → AreaStatus) → ℕ → ℕ → Bool → Cache → Bool × Cache
  drop_clean status zero i found c = (found, c)
  drop_clean status (suc r) i found c =
      let e : Elem = get_or c.elems i (clear n) in
      let next : Cache = if is_droppable status e then remove_elem (get_area e) c else c in
      drop_clean status r (i + 1) (found || is_droppable status e) next

  -- The loop that looks for the element without a written summary that has most unused pages.
  unfoldable pub favourite : (ℕ → AreaStatus) → ℕ → ℕ → Option ℕ → ℕ → Cache → Option ℕ
  favourite status zero i best most c = best
  favourite status (suc r) i best most c =
      let e : Elem = get_or c.elems i (clear n) in
      let unused : ℕ = n - count_used n e in
      let better : Bool =
        is_used e
        && (not (is_written e) && (not (is_active (status (get_area e))) && leb most unused)) in
      favourite status r (i + 1) (if better then some i else best) (if better then unused else most)
        c

  -- What area management calls.
  unfoldable pub clear_written : ℕ → Cache → Cache
  clear_written area c = with_elem area (set_written false (elem_of area c)) c

  unfoldable pub drop_elem : ℕ → Cache → Cache
  drop_elem area c = remove_elem area (with_elem area (set_dirty false (elem_of area c)) c)

  pub summary : SummaryOps Cache
  summary = record {
    exists_elem = exists_elem;
    clear_written = clear_written;
    drop_elem = drop_elem;
  }
