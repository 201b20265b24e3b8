-- ===== src/AreaSummary/Stored.antt =====
-- An area summary that is written packed and read back.
use paffs.Prelude.{
  ℕ, zero, suc, ◌+◌, ◌≤◌, ◌<◌, ◌≡◌, refl, ap, Bool, true, false, not, ◌&&◌, ◌||◌, List, ltb, leb,
  if◌then◌else◌, if-elim, arith,
}
use paffs.Types.{Result, ok, is_ok, SummaryEntry, free, used, dirty}
use paffs.BitList
use paffs.BitList.{set_bit, get_bit}
use paffs.BitList.Laws.{
  IsBitList, clear-IsBitList, get_bit-clear, set_bit-IsBitList, get_bit-set_bit,
}
use paffs.BitList.TwoBit.{IsTwoBitList}
use paffs.AreaSummary.{
  is_corrected, Elem, is_dirty_entry, status_in, store_in, get_status, packed_from, packed_summary,
  size_packed, unpack_from, read_packed,
}
use paffs.AreaSummary.Laws.{status_in-store_in, store_in-IsTwoBitList}

module _ (n : ℕ) where
  get_bit-packed_from :
      (e : Elem) (r k : ℕ) (list : List ℕ) (j : ℕ)
      → IsBitList n list
      → k + r ≤ n
      → get_bit n j (packed_from n r k e list) ≡ (
          if leb k j && (ltb j (k + r) && not (is_dirty_entry (get_status n e j)))
          then true
          else get_bit n j list)
  unfolding packed_from
  get_bit-packed_from e zero k list j w le = ground arith
  get_bit-packed_from e (suc r) k list j w le =
      let well : IsBitList n
          (if is_dirty_entry (get_status n e k) then list else set_bit n k list) =
        if-elim (IsBitList n) (is_dirty_entry (get_status n e k)) _ _ (λ t. w)
          (λ f. set_bit-IsBitList n k list w) in
      ground (
        arith,
        get_bit-set_bit n k list w j,
        get_bit-packed_from e r (k + 1)
            (if is_dirty_entry (get_status n e k) then list else set_bit n k list) j well,
      )

  -- The bit of a page is set exactly when the page is not dirty.
  pub get_bit-packed_summary :
      (e : Elem) (j : ℕ)
      → j < n
      → get_bit n j (packed_summary n e) ≡ not (is_dirty_entry (get_status n e j))
  unfolding packed_summary
  get_bit-packed_summary e j lt =
      ground (
        arith,
        get_bit-packed_from e n 0 (BitList.clear n) j (clear-IsBitList n),
        get_bit-clear n j,
      )

  -- Bits behind `areaSummarySizePacked` read as clear.
  get_bit-size_packed :
      (j : ℕ) (list : List ℕ)
      → j < n
      → get_bit (size_packed n) j list ≡ (if ltb j (size_packed n) then get_bit n j list else false)
  unfolding get_bit
  get_bit-size_packed j list lt = ground arith

  module _ (read : ℕ → Result × Bool) (readable : (i : ℕ) → (read i).0 ≡ ok) where
    unfoldable value_at : List ℕ → ℕ → SummaryEntry
    value_at summary i =
        if get_bit (size_packed n) i summary then (if (read i).1 then used else free) else dirty

    unpack_from-suc :
        (r i : ℕ) (summary list : List ℕ)
        → unpack_from n read (suc r) i summary false list
          ≡ unpack_from n read r (i + 1) summary false (store_in n i (value_at summary i) list)
    unfolding unpack_from value_at
    unpack_from-suc r i summary list =
        let okay : is_ok (read i).0 ≡ true = ap is_ok (readable i) in
        let clean : is_corrected (read i).0 ≡ false = ap is_corrected (readable i) in
        ground (arith, okay, clean)

    unpack_from_lem :
        (r i : ℕ) (summary list : List ℕ) (j : ℕ)
        → IsTwoBitList n list
        → i + r ≤ n
        → j < n
        → ((unpack_from n read r i summary false list).0 ≡ ok)
          × (status_in n j (unpack_from n read r i summary false list).1
              ≡ (if leb i j && ltb j (i + r) then value_at summary j else status_in n j list))
    unfolding unpack_from
    unpack_from_lem zero i summary list j w le lt = (refl, ground arith)
    unpack_from_lem (suc r) i summary list j w le lt = ground (
      arith,
      unpack_from-suc r i summary list,
      status_in-store_in n i j (value_at summary i) list w,
      unpack_from_lem r (i + 1) summary (store_in n i (value_at summary i) list) j
          (store_in-IsTwoBitList n i (value_at summary i) list w) (omega arith) lt,
    )

    -- What is read back.
    pub read-packed_summary :
        (e : Elem) (list : List ℕ) (j : ℕ)
        → IsTwoBitList n list
        → j < n
        → status_in n j (read_packed n read (packed_summary n e) list).1 ≡ (
            if is_dirty_entry (get_status n e j) || leb (size_packed n) j
            then dirty
            else if (read j).1
            then used
            else free)
    unfolding read_packed value_at
    read-packed_summary e list j w lt = ground (
      arith,
      (unpack_from_lem n 0 (packed_summary n e) list j w (omega arith) lt).1,
      get_bit-size_packed j (packed_summary n e) lt,
      get_bit-packed_summary e j lt,
    )
