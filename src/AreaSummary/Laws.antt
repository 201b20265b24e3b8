-- ===== src/AreaSummary/Laws.antt =====
-- What the setters of `AreaSummaryElem` leave to read.
use paffs.Prelude.{
  ℕ, zero, suc, ltb, leb, ◌&&◌, ◌≤◌, ◌+◌, ◌<◌, ◌≡◌, refl, ◌∙◌, Bool, true, false, List, ◌==◌,
  if◌then◌else◌, if-elim, u16, arith,
}
use paffs.Types.{SummaryEntry, free, used, dirty, error}
use paffs.BitList.Bytes.{set_in_byte_bits, reset_in_byte_bits, set_in_byte-lt, reset_in_byte-lt}
use paffs.BitList.TwoBit.{IsTwoBitList, get_value-set_value, set_value-IsTwoBitList}
use paffs.AreaSummary.{
  pack_status, Elem, code, entry_of, flag, with_flag, is_used, same_entry, is_dirty_entry,
  status_in, store_in, get_status, set_status,
}

pub record IsElem (n : ℕ) (e : Elem) : Type 0 where
  pub entries : IsTwoBitList n e.entries
  pub bits : e.status_bits < 256

pub entry_of-code : (s : SummaryEntry) → entry_of (code s) ≡ s
entry_of-code free = refl
entry_of-code used = refl
entry_of-code dirty = refl
entry_of-code error = refl

pub code-lt : (s : SummaryEntry) → code s < 4
code-lt free = omega arith
code-lt used = omega arith
code-lt dirty = omega arith
code-lt error = omega arith

-- A flag that is set or reset is so; the other flags are as before.
pub flag-with_flag :
    (k j : ℕ) (on : Bool) (e : Elem)
    → e.status_bits < 256
    → k < 8
    → j < 8
    → flag j (with_flag k on e) ≡ (if k == j then on else flag j e)
unfolding flag with_flag
flag-with_flag k j true e byte hk hj = set_in_byte_bits e.status_bits k j byte hk hj
flag-with_flag k j false e byte hk hj = reset_in_byte_bits e.status_bits k j byte hk hj

pub with_flag-lt : (k : ℕ) (on : Bool) (e : Elem) → (with_flag k on e).status_bits < 256
unfolding with_flag
with_flag-lt k true e = set_in_byte-lt e.status_bits k
with_flag-lt k false e = reset_in_byte-lt e.status_bits k

module _ (n : ℕ) where
  pub status_in-store_in :
      (page j : ℕ) (v : SummaryEntry) (list : List ℕ)
      → IsTwoBitList n list
      → page < n
      → status_in n j (store_in n page v list) ≡ (if page == j then v else status_in n j list)
  unfolding status_in store_in
  status_in-store_in page j v list w lt =
      ground (arith, entry_of-code v, get_value-set_value n page (code v) list w j lt (code-lt v))

  pub store_in-IsTwoBitList :
      (page : ℕ) (v : SummaryEntry) (list : List ℕ)
      → IsTwoBitList n list
      → IsTwoBitList n (store_in n page v list)
  unfolding store_in
  store_in-IsTwoBitList page v list w =
      if-elim (IsTwoBitList n) (leb n page) _ _ (λ t. w)
        (λ f. set_value-IsTwoBitList n page (code v) list w)

  module _ (page : ℕ) (v : SummaryEntry) (e : Elem) (elem : IsElem n e) where
    marked-used :
        (same : Bool)
        → is_used (if same then e else with_flag 2 false (with_flag 0 true e)) ≡ is_used e
    marked-used true = refl
    marked-used false =
        flag-with_flag 2 3 false (with_flag 0 true e) (with_flag-lt 0 true e) (omega arith)
          (omega arith)
        ∙ flag-with_flag 0 3 true e elem.bits (omega arith) (omega arith)

    marked-lt :
        (same : Bool)
        → (if same then e else with_flag 2 false (with_flag 0 true e)).status_bits < 256
    marked-lt true = elem.bits
    marked-lt false = with_flag-lt 2 false (with_flag 0 true e)

    pub is_used-set_status : is_used (set_status n page v e) ≡ is_used e
    unfolding set_status flag
    is_used-set_status =
        if-elim (λ x. is_used x ≡ is_used e) (is_used e) _ _
          (λ t. marked-used (same_entry (get_status n e page) v)) (λ f. refl)

    entries-set_status :
        is_used e ≡ true → (set_status n page v e).entries ≡ store_in n page v e.entries
    unfolding set_status
    entries-set_status in_use = ground (arith, in_use)

    -- After the state of a page is set, it reads so, and every other page as before.
    pub get_status-set_status :
        (j : ℕ)
        → is_used e ≡ true
        → page < n
        → get_status n (set_status n page v e) j ≡ (if page == j then v else get_status n e j)
    unfolding get_status
    get_status-set_status j in_use lt = ground (
      arith,
      is_used-set_status,
      in_use,
      entries-set_status in_use,
      status_in-store_in page j v e.entries elem.entries lt,
    )

    pub set_status-IsElem : IsElem n (set_status n page v e)
    unfolding set_status
    set_status-IsElem =
        if-elim (IsElem n) (is_used e) _ _
          (λ t. record {
            entries = store_in-IsTwoBitList page v e.entries elem.entries;
            bits = marked-lt (same_entry (get_status n e page) v);
          })
          (λ f. elem)

    pub dirty_pages-set_status :
        is_used e ≡ true
        → (set_status n page v e).dirty_pages
          ≡ (if is_dirty_entry v then u16 (e.dirty_pages + 1) else e.dirty_pages)
    unfolding set_status
    dirty_pages-set_status in_use = ground (arith, in_use)

  -- After `packStatusArray` the pages have the states of the array.
  pub get_status-pack_status :
      (r i : ℕ) (statuses : ℕ → SummaryEntry) (e : Elem) (j : ℕ)
      → IsElem n e
      → is_used e ≡ true
      → i + r ≤ n
      → get_status n (pack_status n r i statuses e) j
        ≡ (if leb i j && ltb j (i + r) then statuses j else get_status n e j)
  unfolding pack_status
  get_status-pack_status zero i statuses e j elem in_use le = ground arith
  get_status-pack_status (suc r) i statuses e j elem in_use le = ground (
    arith,
    get_status-set_status i (statuses i) e elem j in_use (omega arith),
    get_status-pack_status r (i + 1) statuses (set_status n i (statuses i) e) j
        (set_status-IsElem i (statuses i) e elem)
        (is_used-set_status i (statuses i) e elem ∙ in_use) (omega arith),
  )
