-- ===== src/DataIo/Content.antt =====
-- What a file's pages hold, seen from the outside, and what `DataIO` relies on in the other parts.
use paffs.Prelude.{
  ℕ, ◌-◌, ◌/◌, ◌%◌, ◌≤◌, ◌<◌, ◌≡◌, ◌≢◌, Bool, true, false, List, ◌==◌, if◌then◌else◌, length,
  get_or,
}
use paffs.Types.{ok, used, dirty, Config, Inode, data_area, active}
use paffs.Journal.{Entry}
use paffs.Superblock
use paffs.Addr.{combine_address}
use paffs.DataIo.{Addresses, with_addresses, IoOps, is_sane, place_of}

-- The number of the inode and the addresses in it, the addresses of the file's pages, the bytes at
-- an address, the addresses in data areas that were written, those that were written once and may be
-- given up, those that are erased and not given
-- out, those that are erased and marked as used, and how many pages can still be given out.
pub record View : Type 0 where
  pub target : ℕ
  pub addresses : Addresses
  pub addr : ℕ → ℕ
  pub byte : ℕ → ℕ → ℕ
  pub written : ℕ → Bool
  pub issued : ℕ → Bool
  pub free : ℕ → Bool
  pub reserved : ℕ → Bool
  pub room : ℕ

-- A page without an address holds zeros.
abbrev pub page_byte : View → ℕ → ℕ → ℕ
page_byte v page i = if v.addr page == 0 then 0 else v.byte (v.addr page) i

-- The byte at a position of the file.
unfoldable pub file_byte : ℕ → View → ℕ → ℕ
file_byte size v k = page_byte v (k / size) (k % size)

abbrev pub with_addr : ℕ → ℕ → View → View
with_addr page a v = record v { addr = λ q. if q == page then a else v.addr q }

abbrev no_page : ℕ → Bool
no_page a = false

-- A page was given out: it is marked, and there is one page fewer.
abbrev pub with_reserved : ℕ → View → View
with_reserved a v = record v { free = no_page; reserved = λ b. b == a; room = v.room - 1 }

-- A page is given up, and may be erased from now on.
abbrev pub without : ℕ → View → View
without a v = record v {
  written = λ b. if b == a then false else v.written b;
  free = no_page;
  reserved = no_page;
  room = 0;
}

abbrev pub IsUnused : ℕ → View → ℕ → Type 0
IsUnused limit v a = (page : ℕ) → page < limit → v.addr page ≢ a

-- An address that belongs to no page of the file.
pub record IsFresh (limit : ℕ) (v : View) (a : ℕ) : Type 0 where
  pub nonzero : a ≢ 0
  pub unwritten : v.written a ≡ false
  pub unused : IsUnused limit v a

-- The inode has the addresses that the cache works on.
abbrev pub HasAddresses : View → Inode → Type 0
HasAddresses v node = with_addresses v.addresses node ≡ node

-- After a page was written: its first bytes are those of the buffer, every other page is unchanged.
pub record Wrote (a n : ℕ) (content : List ℕ) (v v' : View) : Type 0 where
  pub same_target : v'.target ≡ v.target
  pub same_addr : (page : ℕ) → v'.addr page ≡ v.addr page
  pub is_written : v'.written a ≡ true
  pub same_written : (b : ℕ) → b ≢ a → v'.written b ≡ v.written b
  pub new_bytes : (i : ℕ) → i < n → v'.byte a i ≡ get_or content i 0
  pub old_bytes : (b i : ℕ) → b ≢ a → v'.byte b i ≡ v.byte b i
  pub same_room : v'.room ≡ v.room

-- `limit` is the number of pages that a file can have.
module _ {W : Type 0} (c : Config) (size max_pages limit : ℕ) (ops : IoOps W) where
  abbrev pub data_active : W → ℕ
  data_active w = Superblock.get_active_area c data_area (ops.area_map w)

  pub record Claimed (Shows : W → View → Type 0) (v : View) (w : W) : Type 0 where
    pub mid : W
    pub page : ℕ
    pub end : W
    pub found : ops.find_writable w ≡ (ok, mid)
    pub is_open : Superblock.get_status c (data_active mid) (ops.area_map mid) ≡ active
    pub free_page : ops.find_first_free (data_active mid) mid ≡ (ok, (page, end))
    pub shows : Shows end (record v { free = λ b. b == combine_address (data_active end) page })
    pub fresh : IsFresh limit v (combine_address (data_active end) page)

  pub record IoLaws : Type 1 where
    pub Shows : W → View → Type 0
    pub writable : (w : W) (v : View) → Shows w v → ops.read_only w ≡ false
    pub buffer_length : (w : W) (v : View) → Shows w v → length (ops.buffer w) ≡ size
    pub sane :
        (w : W) (v : View) (a : ℕ)
        → Shows w v
        → v.written a ≡ true
        → is_sane c size max_pages ops a w ≡ true
    pub addr_written :
        (w : W) (v : View) (page : ℕ)
        → Shows w v
        → page < limit
        → v.addr page ≢ 0
        → v.written (v.addr page) ≡ true
    pub written_issued :
        (w : W) (v : View) (a : ℕ) → Shows w v → v.written a ≡ true → v.issued a ≡ true
    pub addr_distinct :
        (w : W) (v : View) (p q : ℕ)
        → Shows w v
        → p < limit
        → q < limit
        → v.addr p ≢ 0
        → v.addr p ≡ v.addr q
        → p ≡ q
    pub addresses_lem : (w : W) (v : View) → Shows w v → ops.addresses w ≡ v.addresses
    pub get_page_ok :
        (w : W) (v : View) (page : ℕ)
        → Shows w v
        → page < limit
        → (w' : W) × (ops.get_page page w ≡ (ok, (v.addr page, w'))) × Shows w' v
    pub read_page_ok :
        (w : W) (v : View) (a n : ℕ)
        → Shows w v
        → v.written a ≡ true
        → n ≤ size
        → (w' : W) × (ops.read_page (place_of c size max_pages ops a w) n w ≡ (ok, w'))
          × Shows w' v
          × ((i : ℕ) → i < n → get_or (ops.buffer w') i 0 ≡ v.byte a i)
    pub put_buffer_shows :
        (w : W) (v : View) (b : List ℕ) → Shows w v → length b ≡ size → Shows (ops.put_buffer b w) v
    pub put_buffer_lem : (w : W) (b : List ℕ) → ops.buffer (ops.put_buffer b w) ≡ b
    pub claim_ok : (w : W) (v : View) → Shows w v → 0 < v.room → Claimed Shows v w
    pub write_page_ok :
        (w : W) (v : View) (a n : ℕ)
        → Shows w v
        → IsFresh limit v a
        → v.reserved a ≡ true
        → n ≤ size
        → (w' : W) × (v' : View) × (ops.write_page (place_of c size max_pages ops a w) n w
            ≡ (ok, w'))
          × Shows w' v'
          × Wrote a n (ops.buffer w) v v'
    pub set_page_shows :
        (w : W) (v : View) (page a : ℕ)
        → Shows w v
        → page < limit
        → v.written a ≡ true
        → IsUnused limit v a
        → Shows
            (ops.set_page page a w).1
            (record (with_addr page a v) { addresses = ops.addresses (ops.set_page page a w).1 })
    pub manage_full_ok :
        (w : W) (v : View) → Shows w v → (w' : W) × (ops.manage_full w ≡ (ok, w')) × Shows w' v
    pub event_shows : (w : W) (v : View) (e : Entry) → Shows w v → Shows (ops.pages.add_event e w) v
    pub used_shows :
        (w : W) (v : View) (a : ℕ)
        → Shows w v
        → IsFresh limit v a
        → v.free a ≡ true
        → 0 < v.room
        → (w' : W) × (ops.pages.set_page_status a used w ≡ (ok, w')) × Shows w' (with_reserved a v)
    pub dirty_shows :
        (w : W) (v : View) (a : ℕ)
        → Shows w v
        → v.issued a ≡ true
        → IsUnused limit v a
        → Shows (ops.pages.set_page_status a dirty w).1 (without a v)
    pub update_ok :
        (w : W) (v : View) (node : Inode)
        → Shows w v
        → node.no ≡ v.target
        → HasAddresses v node
        → (w' : W) × (ops.update_inode node w ≡ (ok, w')) × Shows w' v
    pub set_valid_shows : (w : W) (v : View) → Shows w v → Shows (ops.set_valid w) v
    pub retarget_ok :
        (w : W) (v : View) (node : Inode)
        → Shows w v
        → node.no ≡ v.target
        → HasAddresses v node
        → (w' : W) × (ops.set_target node w ≡ (ok, w')) × Shows w' v
