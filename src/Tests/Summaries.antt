-- ===== src/Tests/Summaries.antt =====
-- An area of five data pages in a summary cache of two elements.
use paffs.Prelude.{
  ℕ, table, ◌+◌, ◌<◌, ◌≡◌, ◌≢◌, refl, Bool, true, false, ◌||◌, [], ◌∷◌, leb, ◌==◌, if◌then◌else◌,
  get_or, length, arith,
}
use paffs.Types.{SummaryEntry, Result, ok, no_space, closed, free, used, dirty}
use paffs.BitList.{test_in_byte}
use paffs.BitList.TwoBit.{IsTwoBitList, get_value, get_in_byte}
use paffs.AreaSummary.{
  Elem, clear, flag, is_used, is_dirty_entry, status_in, get_status, set_status, count_status,
  count_dirty, packed_summary, size_packed, read_packed,
}
use paffs.AreaSummary.Laws.{IsElem}
use paffs.AreaSummary.Counting.{set_status-count_dirty}
use paffs.AreaSummary.Stored.{read-packed_summary}
use paffs.SummaryCache.{Cache, find, exists_elem, elem_pos, elem_of, enable_elem}
use paffs.SummaryCache.Blocks.{get_summary_status-set_summary_status}
use paffs.SummaryCache.Steps.{
  get_summary_status, set_summary_status, CacheOps, set_page_status, get_page_status,
}
use paffs.SummaryCache.Entries.{IsCache, IsTranslation, IsEntry, enable_elem-IsCache}
use paffs.SummaryCache.Pages.{status_of, get_page_status-set_page_status}

-- The pages 0, 1 and 2 are used, dirty and used; the counter is right.
abbrev elem : Elem
elem = record { entries = 25 ∷ 0 ∷ []; status_bits = 8; area = 3; dirty_pages = 1 }

abbrev unused : Elem
unused = record { entries = 0 ∷ 0 ∷ []; status_bits = 0; area = 0; dirty_pages = 0 }

abbrev cache : Cache
cache = record { elems = unused ∷ elem ∷ []; translation = (3, 1) ∷ [] }

elem-IsTwoBitList : IsTwoBitList 5 elem.entries
elem-IsTwoBitList = record { sized = refl; bytes = (omega arith, (omega arith, tt)) }

elem-IsElem : IsElem 5 elem
elem-IsElem = record { entries = elem-IsTwoBitList; bits = omega arith }

elem-used : is_used elem ≡ true
unfolding flag test_in_byte
elem-used = refl

page_clean : get_status 5 elem 2 ≢ dirty
unfolding get_status status_in get_value get_in_byte flag test_in_byte
page_clean = ground arith

elem-counted : elem.dirty_pages ≡ count_dirty 5 elem
unfolding count_status get_status status_in get_value get_in_byte flag test_in_byte
elem-counted = refl

set_status-count_dirty_example :
    (set_status 5 2 dirty elem).dirty_pages ≡ count_dirty 5 (set_status 5 2 dirty elem)
set_status-count_dirty_example =
    set_status-count_dirty 5 2 dirty elem elem-IsElem elem-used (omega arith) (omega arith)
      page_clean elem-counted

-- Pages that contain data: the first three.
abbrev read : ℕ → Result × Bool
read i = (ok, leb i 2)

read-packed_summary_example :
    status_in 5 2 (read_packed 5 read (packed_summary 5 elem) (0 ∷ 0 ∷ [])).1 ≡ (
      if is_dirty_entry (get_status 5 elem 2) || leb (size_packed 5) 2
      then dirty
      else if (read 2).1
      then used
      else free)
read-packed_summary_example =
    read-packed_summary 5 read (λ i. refl) elem (0 ∷ 0 ∷ []) 2
      (record { sized = refl; bytes = (omega arith, (omega arith, tt)) }) (omega arith)

cache-IsCache : IsCache 5 cache
unfolding IsCache IsTranslation IsEntry find flag test_in_byte
cache-IsCache = (refl, (omega arith, refl, refl), tt)

slot-unused : is_used (get_or cache.elems 0 (clear 5)) ≡ false
unfolding flag test_in_byte
slot-unused = refl

enable_elem-IsCache_example : IsCache 5 (enable_elem 5 0 6 cache)
enable_elem-IsCache_example =
    enable_elem-IsCache 5 cache 6 cache-IsCache 0 (omega arith) slot-unused (omega arith)

abbrev ops : CacheOps ℕ
ops = record {
  read_summary = λ area es w. (ok, es);
  write_page = λ area bytes w. (ok, w + 1);
  log_commit = λ area w. w + 1;
  log_status = λ area page state w. w + 1;
  log_block = λ area es w. w + 1;
  collect = λ c w. (no_space, (c, w));
}

elem-placed : elem_pos 5 3 cache < length cache.elems
unfolding elem_pos find
elem-placed = omega arith

cached-IsElem : IsElem 5 (elem_of 5 3 cache)
unfolding elem_of elem_pos find
cached-IsElem = elem-IsElem

cached-used : is_used (elem_of 5 3 cache) ≡ true
unfolding elem_of elem_pos find
cached-used = elem-used

area-cached : exists_elem 5 3 cache ≡ true
unfolding exists_elem find
area-cached = refl

get_page_status-set_page_status_example :
    ((get_page_status ops 5 2 false
        (λ a. closed)
        false
        3
        2
        (set_page_status ops 5 2 false false (λ a. closed) (λ a. false) false 3 0 dirty cache 0).1.0
        9).0
      ≡ ok)
    × ((get_page_status ops 5 2 false
          (λ a. closed)
          false
          3
          2
          (set_page_status ops 5 2 false false
            (λ a. closed)
            (λ a. false)
            false
            3
            0
            dirty
            cache
            0).1.0
          9).1.0
        ≡ (if 0 == 2 then dirty else status_of 5 3 2 cache))
get_page_status-set_page_status_example =
    get_page_status-set_page_status ops 5 2 false (λ a. closed) (λ a. false) false 3 0 dirty cache 0
      elem-placed cached-IsElem cached-used (omega arith) 2 9 (omega arith) (omega arith)
      area-cached refl

abbrev alternating : ℕ → SummaryEntry
alternating i = if leb i 2 then dirty else used

get_summary_status-set_summary_status_example :
    get_summary_status ops 5 2 false 3
      (set_summary_status ops 5 2 false (λ a. closed) false 1 3 alternating cache 0).1.0
      9
    ≡ (ok, table 5 0 alternating)
get_summary_status-set_summary_status_example =
    get_summary_status-set_summary_status ops 5 2 false (λ a. closed) false 1 3 alternating cache 0
      elem-placed cached-IsElem cached-used area-cached 9
