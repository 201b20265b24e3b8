-- ===== src/AreaSummary.antt =====
-- src/summaryCache.cpp: `AreaSummaryElem`, the states of one area's pages in the cache, and the form
-- in which it is written to flash. The parameter `n` is `dataPagesPerArea`.
pub mod Laws
pub mod Counting
pub mod Stored
use paffs.Prelude.{
  ℕ, zero, suc, ◌+◌, ◌*◌, ◌/◌, ◌<◌, Bool, true, false, not, ◌&&◌, ◌||◌, List, [], leb, ltb, ◌==◌,
  if◌then◌else◌, u8, u16,
}
use paffs.Types.{Result, ok, bug, biterror_corrected, is_ok, SummaryEntry, free, used, dirty, error}
use paffs.BitList
use paffs.BitList.{set_in_byte, reset_in_byte, test_in_byte, set_bit, get_bit}
use paffs.BitList.TwoBit
use paffs.BitList.TwoBit.{get_value, set_value}

pub record Elem : Type 0 where
  pub entries : List ℕ
  pub status_bits : ℕ
  pub area : ℕ
  pub dirty_pages : ℕ

-- The values of `enum SummaryEntry`.
abbrev pub code : SummaryEntry → ℕ
code free = 0
code used = 1
code dirty = 2
code error = 3

abbrev pub entry_of : ℕ → SummaryEntry
entry_of zero = free
entry_of (suc zero) = used
entry_of (suc (suc zero)) = dirty
entry_of (suc (suc (suc k))) = error

abbrev pub is_dirty_entry : SummaryEntry → Bool
is_dirty_entry dirty = true
is_dirty_entry _ = false

abbrev pub same_entry : SummaryEntry → SummaryEntry → Bool
same_entry a b = code a == code b

-- The flags of `mStatusBits`: dirty, summary written, loaded from the super page, used.
unfoldable pub flag : ℕ → Elem → Bool
flag k e = test_in_byte e.status_bits k

unfoldable pub with_flag : ℕ → Bool → Elem → Elem
with_flag k on e = record e {
  status_bits = if on then set_in_byte e.status_bits k else reset_in_byte e.status_bits k;
}

abbrev pub is_dirty : Elem → Bool
is_dirty e = flag 0 e

abbrev pub is_written : Elem → Bool
is_written e = flag 1 e

abbrev pub is_loaded : Elem → Bool
is_loaded e = flag 2 e

abbrev pub is_used : Elem → Bool
is_used e = flag 3 e

abbrev pub set_dirty : Bool → Elem → Elem
set_dirty on e = with_flag 0 on e

abbrev pub set_written : Bool → Elem → Elem
set_written on e = with_flag 1 on e

abbrev pub set_loaded : Bool → Elem → Elem
set_loaded on e = with_flag 2 on e

abbrev pub set_dirty_pages : ℕ → Elem → Elem
set_dirty_pages pages e = record e { dirty_pages = pages }

-- An element in use keeps its area.
unfoldable pub set_area : ℕ → Elem → Elem
set_area area e = if is_used e then e else with_flag 3 true (record e { area = area })

unfoldable pub get_area : Elem → ℕ
get_area e = if is_used e then e.area else 0

abbrev pub is_corrected : Result → Bool
is_corrected biterror_corrected = true
is_corrected _ = false

module _ (n : ℕ) where
  unfoldable pub clear : Elem
  clear = record { entries = TwoBit.clear n; status_bits = 0; area = 0; dirty_pages = 0 }

  unfoldable pub status_in : ℕ → List ℕ → SummaryEntry
  status_in page list = if leb n page then error else entry_of (get_value page list)

  unfoldable pub store_in : ℕ → SummaryEntry → List ℕ → List ℕ
  store_in page value list = if leb n page then list else set_value page (code value) list

  unfoldable pub get_status : Elem → ℕ → SummaryEntry
  get_status e page = if is_used e then status_in page e.entries else error

  unfoldable pub set_status : ℕ → SummaryEntry → Elem → Elem
  set_status page value e =
      let marked : Elem = set_loaded false (set_dirty true e) in
      let e' : Elem = if same_entry (get_status e page) value then e else marked in
      if is_used e
      then record e' {
        entries = store_in page value e.entries;
        dirty_pages = if is_dirty_entry value then u16 (e.dirty_pages + 1) else e.dirty_pages;
      }
      else e

  -- `countDirtyPages` and `countUsedPages`, of the pages from `i` on.
  unfoldable pub count_status : ℕ → ℕ → ℕ → Elem → ℕ
  count_status k zero i e = 0
  count_status k (suc r) i e =
      (if code (get_status e i) == k then 1 else 0) + count_status k r (i + 1) e

  abbrev pub count_dirty : Elem → ℕ
  count_dirty e = u16 (count_status 2 n 0 e)

  abbrev pub count_used : Elem → ℕ
  count_used e = u16 (count_status 1 n 0 e)

  -- `packStatusArray`, from page `i` on.
  unfoldable pub pack_status : ℕ → ℕ → (ℕ → SummaryEntry) → Elem → Elem
  pack_status zero i statuses e = e
  pack_status (suc r) i statuses e = pack_status r (i + 1) statuses (set_status i (statuses i) e)

  -- The loop of `writeAreasummary`: a bit for each page that is not dirty.
  unfoldable pub packed_from : ℕ → ℕ → Elem → List ℕ → List ℕ
  packed_from zero j e list = list
  packed_from (suc r) j e list =
      packed_from r (j + 1) e (if is_dirty_entry (get_status e j) then list else set_bit n j list)

  unfoldable pub packed_summary : Elem → List ℕ
  packed_summary e = packed_from n 0 e (BitList.clear n)

  -- `areaSummarySizePacked`: the packed bytes and the marker.
  abbrev pub size_packed : ℕ
  size_packed = 1 + (n + 7) / 8

  -- The loop of `readAreasummary` over a packed summary. `read i` is the outcome of reading the
  -- page `i`, with whether it contains data. The test of a bit is `BitList<areaSummarySizePacked>`.
  module _ (read : ℕ → Result × Bool) where
    unfoldable pub unpack_from : ℕ → ℕ → List ℕ → Bool → List ℕ → Result × List ℕ
    unpack_from zero i summary corrected list = (if corrected then biterror_corrected else ok, list)
    unpack_from (suc r) i summary corrected list =
        let p : Result × Bool = read i in
        let bit : Bool = get_bit size_packed i summary in
        let value : SummaryEntry = if bit then (if p.1 then used else free) else dirty in
        let rest : Result × List ℕ =
          unpack_from r (i + 1) summary (corrected || (bit && is_corrected p.0))
            (store_in i value list) in
        if bit && not (is_ok p.0 || is_corrected p.0) then (p.0, list) else rest

    unfoldable pub read_packed : List ℕ → List ℕ → Result × List ℕ
    read_packed summary list = unpack_from n 0 summary false list

-- `writeAreasummary`. `write` stores the bytes behind the area's marker, `commit` adds the entry
-- `summaryCache::Commit` to the journal.
module _ {W : Type 0} (write : ℕ → List ℕ → W → Result × W) (commit : ℕ → W → W) where
  unfoldable pub write_summary : ℕ → Bool → Bool → Elem → W → Result × (Elem × W)
  write_summary n is_packed is_replay e w =
      let bytes : List ℕ = if is_packed then packed_summary n e else e.entries in
      let r : Result × W = write (get_area e) bytes w in
      if is_written e
      then (bug, (e, w))
      else if is_replay
      then (bug, (e, w))
      else if is_ok r.0
      then (ok, (set_dirty false (set_written true e), commit (get_area e) r.1))
      else (r.0, (e, r.1))
