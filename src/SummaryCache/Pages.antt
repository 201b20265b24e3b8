-- ===== src/SummaryCache/Pages.antt =====
-- `setPageStatus` and `getPageStatus` on an area that is in the cache.
use paffs.Prelude.{
  ℕ, ℕ_discrete, ◌<◌, ◌≡◌, ◌≢◌, refl, sym, ap, ◌∙◌, Bool, true, false, List, ◌==◌, if◌then◌else◌,
  if-elim, length, length-set, get_or-set_self, arith,
}
use paffs.Types.{ok, Result, is_ok, error, AreaStatus, SummaryEntry}
use paffs.AreaSummary.{
  packed_summary, get_area, entry_of, status_in, Elem, clear, is_used, is_written, same_entry, code,
  get_status, set_status, write_summary, set_dirty, set_written, with_flag,
}
use paffs.AreaSummary.Laws.{
  with_flag-lt, IsElem, flag-with_flag, get_status-set_status, set_status-IsElem, entry_of-code,
}
use paffs.SummaryCache.{Cache, elem_pos, elem_of, with_elem, exists_elem}
use paffs.SummaryCache.Steps.{
  CacheOps, store_page_status, set_cached_status, set_page_status, get_page_status,
}

-- The state of a page of a cached area.
abbrev pub status_of : ℕ → ℕ → ℕ → Cache → SummaryEntry
status_of n area page c = get_status n (elem_of n area c) page

distinct : true ≢ false
distinct h = ground arith

same_entry→eq : (a b : SummaryEntry) → same_entry a b ≡ true → a ≡ b
same_entry→eq a b h =
    let codes : code a ≡ code b = ground arith in
    sym (entry_of-code a) ∙ ap entry_of codes ∙ entry_of-code b

-- The writing of a summary changes flags only.
written-get_status :
    (n : ℕ) (e : Elem) (j : ℕ)
    → IsElem n e
    → get_status n (set_dirty false (set_written true e)) j ≡ get_status n e j
unfolding get_status with_flag
written-get_status n e j elem =
    let kept : is_used (set_dirty false (set_written true e)) ≡ is_used e =
      flag-with_flag 0 3 false (set_written true e) (with_flag-lt 1 true e) (omega arith)
        (omega arith)
      ∙ flag-with_flag 1 3 true e elem.bits (omega arith) (omega arith) in
    ap (λ b. if b then status_in n j e.entries else error) kept

module _ {W : Type 0} (write : ℕ → List ℕ → W → Result × W) (commit : ℕ → W → W) where
  write_summary-get_status :
      (n : ℕ) (is_packed is_replay : Bool) (e : Elem) (w : W) (j : ℕ)
      → IsElem n e
      → get_status n (write_summary write commit n is_packed is_replay e w).1.0 j ≡ get_status n e j
  unfolding write_summary
  write_summary-get_status n is_packed is_replay e w j elem =
      let P : Result × (Elem × W) → Type 0 = λ r. get_status n r.1.0 j ≡ get_status n e j in
      if-elim P (is_written e) _ _ (λ t. refl)
        (λ f.
          if-elim P is_replay _ _ (λ t. refl)
            (λ f.
              if-elim P
                (is_ok
                  (write (get_area e) (if is_packed then packed_summary n e else e.entries) w).0)
                _ _ (λ t. written-get_status n e j elem) (λ f. refl)))

module _ (n area : ℕ) (c : Cache) (placed : elem_pos n area c < length c.elems) where
  pub elem_of-with_elem : (e : Elem) → elem_of n area (with_elem n area e c) ≡ e
  unfolding elem_of with_elem elem_pos
  elem_of-with_elem e = get_or-set_self c.elems (elem_pos n area c) e (clear n) placed

  placed-with_elem :
      (e : Elem) → elem_pos n area (with_elem n area e c) < length (with_elem n area e c).elems
  unfolding with_elem elem_pos
  placed-with_elem e = omega (arith, placed, length-set c.elems (elem_pos n area c) e)

module _ {W : Type 0} (ops : CacheOps W) (n size : ℕ) (is_packed : Bool) (status : ℕ → AreaStatus)
    (is_unset : ℕ → Bool) (is_replay : Bool) (area page : ℕ) (state : SummaryEntry) (c : Cache)
    (w : W) where
  abbrev before : ℕ → SummaryEntry
  before j = status_of n area j c

  -- A call that is admitted is the one on the cached element.
  admitted :
      0 < area
      → page < n
      → exists_elem n area c ≡ true
      → set_page_status ops n size is_packed false status is_unset is_replay area page state c w
        ≡ set_cached_status ops n size is_packed is_unset is_replay area page state c w
  unfolding set_page_status
  admitted some_area lt there = ground (arith, there)

  module _ (placed : elem_pos n area c < length c.elems) (elem : IsElem n (elem_of n area c))
      (in_use : is_used (elem_of n area c) ≡ true) (lt : page < n) where
    stored :
        (w' : W) (j : ℕ)
        → status_of n area j
            (store_page_status ops n size is_packed is_replay area page state c w').1.0
          ≡ (if page == j then state else before j)
    unfolding store_page_status
    stored w' j =
        let e : Elem = set_status n page state (elem_of n area c) in
        let c' : Cache = with_elem n area (set_status n page state (elem_of n area c)) c in
        let P : Result × (Cache × W) → Type 0 =
          λ r. status_of n area j r.1.0 ≡ (if page == j then state else before j) in
        let fresh : elem_of n area (with_elem n area (set_status n page state (elem_of n area c)) c)
            ≡ set_status n page state (elem_of n area c) =
          elem_of-with_elem n area c placed (set_status n page state (elem_of n area c)) in
        let set_lem : get_status n (set_status n page state (elem_of n area c)) j
            ≡ (if page == j then state else before j) =
          get_status-set_status n page state (elem_of n area c) elem j in_use lt in
        if-elim P _ _ _
          (λ t.
            ap (λ x. get_status n x j)
              (elem_of-with_elem n area c' (placed-with_elem n area c placed e) _)
            ∙ write_summary-get_status ops.write_page ops.log_commit n is_packed false e w' j
                (set_status-IsElem n page state (elem_of n area c) elem)
            ∙ set_lem)
          (λ f. ap (λ x. get_status n x j) fresh ∙ set_lem)

    cached :
        (j : ℕ)
        → is_unset area ≡ false
        → status_of n area j
            (set_cached_status ops n size is_packed is_unset is_replay area page state c w).1.0
          ≡ (if page == j then state else before j)
    unfolding set_cached_status
    cached j typed =
        let P : Result × (Cache × W) → Type 0 =
          λ r. status_of n area j r.1.0 ≡ (if page == j then state else before j) in
        let same : before page ≡ state → before j ≡ (if page == j then state else before j) = λ e.
          elim (ℕ_discrete page j) [
            | yes h ↦ ground (arith, h, e, ap before h)
            | no h ↦ ground (arith, h)
          ] in
        if-elim P (is_unset area) _ _ (λ t. absurd (distinct (sym t ∙ typed)))
          (λ f.
            if-elim P (same_entry (get_status n (elem_of n area c) page) state) _ _
              (λ t. same (same_entry→eq _ _ t)) (λ f. stored (ops.log_status area page state w) j))

    -- Whatever it answers, the page has the state afterwards, and every other page what it had.
    pub status_of-set_page_status :
        (j : ℕ)
        → 0 < area
        → exists_elem n area c ≡ true
        → is_unset area ≡ false
        → status_of n area j
            (set_page_status ops n size is_packed false status is_unset is_replay area page state c
              w).1.0
          ≡ (if page == j then state else before j)
    status_of-set_page_status j some_area there typed =
        ap (λ (r : Result × (Cache × W)). status_of n area j r.1.0) (admitted some_area lt there)
        ∙ cached j typed

    cached-exists :
        exists_elem n area c ≡ true
        → exists_elem n area
            (set_cached_status ops n size is_packed is_unset is_replay area page state c w).1.0
          ≡ true
    unfolding set_cached_status store_page_status exists_elem with_elem
    cached-exists there =
        let P : Result × (Cache × W) → Type 0 = λ r. exists_elem n area r.1.0 ≡ true in
        if-elim P (is_unset area) _ _ (λ t. there)
          (λ f.
            if-elim P (same_entry (get_status n (elem_of n area c) page) state) _ _ (λ t. there)
              (λ f. if-elim P _ _ _ (λ t. there) (λ f. there)))

    -- A state that is set is what getPageStatus answers, and for every other page of the area the
    -- one it had.
    pub get_page_status-set_page_status :
        (j : ℕ) (w' : W)
        → j < n
        → 0 < area
        → exists_elem n area c ≡ true
        → is_unset area ≡ false
        → ((get_page_status ops n size is_packed status is_replay area j
              (set_page_status ops n size is_packed false status is_unset is_replay area page state
                c w).1.0
              w').0
            ≡ ok)
          × ((get_page_status ops n size is_packed status is_replay area j
                (set_page_status ops n size is_packed false status is_unset is_replay area page
                  state c w).1.0
                w').1.0
              ≡ (if page == j then state else before j))
    unfolding get_page_status
    get_page_status-set_page_status j w' in_area some_area there typed =
        let kept : exists_elem n area
              (set_page_status ops n size is_packed false status is_unset is_replay area page state
                c w).1.0
            ≡ true =
          ap (λ (r : Result × (Cache × W)). exists_elem n area r.1.0) (admitted some_area lt there)
          ∙ cached-exists there in
        (
          ground (arith, kept),
          ground (arith, kept, status_of-set_page_status j some_area there typed),
        )
