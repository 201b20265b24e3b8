-- ===== src/SummaryCache/Blocks.antt =====
-- `setSummaryStatus` and `getSummaryStatus` on an area that is in the cache.
use paffs.Prelude.{ℕ, ◌<◌, ◌≡◌, ap, ◌∙◌, Bool, true, length, table, table_congr, arith}
use paffs.Types.{Result, ok, AreaStatus, SummaryEntry}
use paffs.AreaSummary.{is_used, get_status, pack_status}
use paffs.AreaSummary.Laws.{IsElem, get_status-pack_status}
use paffs.SummaryCache.{Cache, elem_pos, elem_of, with_elem, exists_elem}
use paffs.SummaryCache.Pages.{elem_of-with_elem}
use paffs.SummaryCache.Steps.{CacheOps, pack_cached, set_summary_status, get_summary_status}

module _ {W : Type 0} (ops : CacheOps W) (n size : ℕ) (is_packed : Bool) (status : ℕ → AreaStatus)
    (is_replay : Bool) (buffer area : ℕ) (statuses : ℕ → SummaryEntry) (c : Cache) (w : W)
    (placed : elem_pos n area c < length c.elems) (elem : IsElem n (elem_of n area c))
    (in_use : is_used (elem_of n area c) ≡ true) (there : exists_elem n area c ≡ true) where
  admitted :
      set_summary_status ops n size is_packed status is_replay buffer area statuses c w
      ≡ pack_cached ops n size is_packed area statuses c w
  unfolding set_summary_status
  admitted = ground (arith, there)

  kept : exists_elem n area (pack_cached ops n size is_packed area statuses c w).1.0 ≡ true
  unfolding pack_cached exists_elem with_elem
  kept = there

  packed :
      elem_of n area (pack_cached ops n size is_packed area statuses c w).1.0
      ≡ pack_status n n 0 statuses (elem_of n area c)
  unfolding pack_cached
  packed = elem_of-with_elem n area c placed (pack_status n n 0 statuses (elem_of n area c))

  -- The states of a whole area that are set are read back.
  pub get_summary_status-set_summary_status :
      (w' : W)
      → get_summary_status ops n size is_packed area
          (set_summary_status ops n size is_packed status is_replay buffer area statuses c w).1.0
          w'
        ≡ (ok, table n 0 statuses)
  unfolding get_summary_status
  get_summary_status-set_summary_status w' =
      let same : table n 0 (get_status n (pack_status n n 0 statuses (elem_of n area c)))
          ≡ table n 0 statuses =
        table_congr n 0 (get_status n (pack_status n n 0 statuses (elem_of n area c))) statuses
          (λ j le lt.
            ground
              (arith, get_status-pack_status n n 0 statuses (elem_of n area c) j elem in_use)) in
      ap (λ (r : Result × (Cache × W)). get_summary_status ops n size is_packed area r.1.0 w')
        admitted
      ∙ ground (arith, kept, packed, same)
