-- ===== src/AreaSummary/Counting.antt =====
-- The counter `mDirtyPages` against the pages that are dirty.
use paffs.Prelude.{
  ℕ, zero, suc, ◌+◌, ◌≤◌, ◌<◌, ◌≡◌, ◌≢◌, refl, Bool, true, false, ◌&&◌, ltb, leb, ◌==◌,
  if◌then◌else◌, arith,
}
use paffs.Types.{SummaryEntry, free, used, dirty, error}
use paffs.AreaSummary.{
  Elem, code, is_dirty_entry, is_used, get_status, set_status, count_status, count_dirty,
}
use paffs.AreaSummary.Laws.{IsElem, get_status-set_status, dirty_pages-set_status}

abbrev one_if : Bool → ℕ
one_if b = if b then 1 else 0

code-is_dirty : (s : SummaryEntry) → (code s == 2) ≡ is_dirty_entry s
code-is_dirty free = refl
code-is_dirty used = refl
code-is_dirty dirty = refl
code-is_dirty error = refl

pub is_dirty-ne : (s : SummaryEntry) → s ≢ dirty → is_dirty_entry s ≡ false
is_dirty-ne free h = refl
is_dirty-ne used h = refl
is_dirty-ne dirty h = absurd (h refl)
is_dirty-ne error h = refl

module _ (n : ℕ) where
  pub count_status-le : (k r i : ℕ) (e : Elem) → count_status n k r i e ≤ r
  unfolding count_status
  count_status-le k zero i e = omega arith
  count_status-le k (suc r) i e = ground (arith, count_status-le k r (i + 1) e)

  -- Elements that differ in one page differ by at most one in a count.
  count-change :
      (k r i page : ℕ) (a b : Elem)
      → ((j : ℕ) → page ≢ j → get_status n a j ≡ get_status n b j)
      → count_status n k r i a
          + one_if (leb i page && ltb page (i + r) && (code (get_status n b page) == k))
        ≡ count_status n k r i b
          + one_if (leb i page && ltb page (i + r) && (code (get_status n a page) == k))
  unfolding count_status
  count-change k zero i page a b others = ground arith
  count-change k (suc r) i page a b others =
      ground (arith, others i, count-change k r (i + 1) page a b others)

  module _ (page : ℕ) (v : SummaryEntry) (e : Elem) (elem : IsElem n e) (in_use : is_used e ≡ true)
      (lt : page < n) (u16_pages : n < 65536) where
    -- A counter that is right stays right when a page that is not dirty gets a state.
    pub set_status-count_dirty :
        get_status n e page ≢ dirty
        → e.dirty_pages ≡ count_dirty n e
        → (set_status n page v e).dirty_pages ≡ count_dirty n (set_status n page v e)
    set_status-count_dirty clean counted =
        let new : Elem = set_status n page v e in
        let here : get_status n new page ≡ v =
          ground (arith, get_status-set_status n page v e elem page in_use lt) in
        let others : (j : ℕ) → page ≢ j → get_status n new j ≡ get_status n e j =
          λ j ne. ground (arith, get_status-set_status n page v e elem j in_use lt) in
        ground (
          arith,
          here,
          counted,
          count-change 2 n 0 page (set_status n page v e) e others,
          dirty_pages-set_status n page v e elem in_use,
          count_status-le 2 n 0 e,
          count_status-le 2 n 0 (set_status n page v e),
          code-is_dirty (get_status n e page),
          code-is_dirty v,
          is_dirty-ne (get_status n e page) clean,
        )
