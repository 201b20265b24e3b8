-- ===== src/DataIo.antt =====
-- src/dataIO.cpp, `DataIO`: the bytes of a file in the pages of the flash. The page address cache,
-- area management, the driver and the tree are an interface; the page state machine is its model.
-- `size` is `dataBytesPerPage`.
pub mod Content
pub mod Delete
pub mod Deleting
pub mod Files
pub mod Filling
pub mod Marks
pub mod Positions
pub mod Ranges
pub mod ReadPages
pub mod Reading
pub mod Rewriting
pub mod RoundTrip
pub mod Storing
pub mod Truncation
pub mod Write
pub mod Writing
use paffs.Prelude.{
  ℕ, zero, suc, ◌+◌, ◌-◌, ◌*◌, ◌/◌, ◌%◌, Bool, true, false, not, ◌&&◌, ◌||◌, List, ltb, ◌==◌,
  if◌then◌else◌, u16, u32, copy, fill,
}
use paffs.Types.{
  Result, ok, bug, no_space, too_big, invalid_input, biterror_corrected, is_ok, AreaType, data_area,
  AreaStatus, active, Inode, Config,
}
use paffs.Calls.{Call, Step, go, stop, ◌>>=◌, ◌>>◌, demand, returned}
use paffs.Journal.{Topic, data_io_topic, new_inode_size}
use paffs.PageState.{PageOps, PageState, replace, invalidate}
use paffs.Superblock
use paffs.Superblock.{Superblock}
use paffs.Addr.{combine_address, extract_logical_area, get_page_number}

-- The addresses in an inode. The page address cache changes them through its pointer to the inode.
pub record Addresses : Type 0 where
  pub direct : List ℕ
  pub indir : ℕ
  pub d_indir : ℕ
  pub t_indir : ℕ

abbrev pub with_addresses : Addresses → Inode → Inode
with_addresses a node = record node {
  direct = a.direct;
  indir = a.indir;
  d_indir = a.d_indir;
  t_indir = a.t_indir;
}

-- `addresses` is what the inode that the cache was set to has now. The driver's page buffer belongs to the state, since every part writes into the same one.
pub record IoOps (W : Type 0) : Type 0 where
  pub pages : PageOps W
  pub read_only : W → Bool
  pub area_map : W → Superblock
  pub find_writable : W → Result × W
  pub find_first_free : ℕ → W → Result × (ℕ × W)
  pub manage_full : W → Result × W
  pub set_target : Inode → W → Result × W
  pub target_no : W → ℕ
  pub addresses : W → Addresses
  pub get_page : ℕ → W → Result × (ℕ × W)
  pub set_page : ℕ → ℕ → W → Result × W
  pub set_valid : W → W
  pub buffer : W → List ℕ
  pub put_buffer : List ℕ → W → W
  pub read_page : ℕ → ℕ → W → Result × W  -- so many bytes of the page, into the buffer
  pub write_page : ℕ → ℕ → W → Result × W  -- so many bytes of the buffer, into the page
  pub update_inode : Inode → W → Result × W
  pub now : W → ℕ

-- Unsigned 32-bit subtraction.
abbrev pub sub32 : ℕ → ℕ → ℕ
sub32 a b = u32 (a + 4294967296 - b)

-- The caller's array, `*bytesRead`, and the offset in the page that comes next.
pub record Reader (W : Type 0) : Type 0 where
  pub world : W
  pub out : List ℕ
  pub done : ℕ
  pub offs : ℕ

abbrev is_data : AreaType → Bool
is_data data_area = true
is_data _ = false

abbrev is_readable : Result → Bool
is_readable ok = true
is_readable biterror_corrected = true
is_readable _ = false

module _ {W : Type 0} (c : Config) (size max_pages : ℕ) (ops : IoOps W) where
  unfoldable pub is_sane : ℕ → W → Bool
  is_sane addr w = is_data (Superblock.get_type c (extract_logical_area addr) (ops.area_map w))

  abbrev pub place_of : ℕ → W → ℕ
  place_of addr w = get_page_number c addr (ops.area_map w)

  -- `btr`, with the offset
  unfoldable pub to_read : ℕ → Reader W → ℕ
  to_read bytes s =
      let left : ℕ = sub32 (bytes + s.offs) s.done in if ltb size left then size else left

  abbrev advance : ℕ → List ℕ → W → Reader W → Reader W
  advance n out w s = record { world = w; out = out; done = s.done + n; offs = 0 }

  unfoldable pub read_written : ℕ → ℕ → Call (Reader W) (Unit {0})
  read_written addr btr s =
      let (r, w) = ops.read_page (place_of addr s.world) btr s.world in
      let n : ℕ = sub32 btr s.offs in
      if not (is_sane addr s.world)
      then stop bug s
      else if is_readable r
      then go tt (advance n (copy 0 n s.offs s.done (ops.buffer w) s.out) w s)
      else stop r (record s { world = w })

  unfoldable pub read_hole : ℕ → Call (Reader W) (Unit {0})
  read_hole btr s =
      let n : ℕ = sub32 btr s.offs in go tt (advance n (fill 0 n s.done 0 s.out) s.world s)

  -- One round of `readPageData`.
  unfoldable pub read_one : ℕ → ℕ → Call (Reader W) (Unit {0})
  read_one page bytes s =
      let (r, (addr, w)) = ops.get_page page s.world in
      let s1 : Reader W = record s { world = w } in
      let btr : ℕ = to_read bytes s in
      if is_ok r
      then (if addr == 0 then read_hole btr s1 else read_written addr btr s1)
      else stop r s1

  unfoldable pub read_pages : ℕ → ℕ → ℕ → Call (Reader W) (Unit {0})
  read_pages zero page bytes s = go tt s
  read_pages (suc rounds) page bytes s =
      (read_one page bytes >>= λ _. read_pages rounds (page + 1) bytes) s

  -- The counter of the rounds has 16 bits.
  unfoldable pub read_page_data : ℕ → ℕ → ℕ → Call (Reader W) (Unit {0})
  read_page_data from to bytes s =
      if ltb to from then stop bug s else read_pages (u16 (sub32 to from) + 1) from bytes s

  -- The page of the last byte; below 0 it wraps.
  unfoldable pub last_page : ℕ → ℕ → ℕ
  last_page offs bytes =
      let end : ℕ = u32 (offs + bytes) in
      if end % size == 0 then sub32 (end / size) 1 else end / size

  -- `readInodeData`, with the array and the count that it fills in.
  unfoldable pub read_inode_data : Inode → ℕ → ℕ → List ℕ → W → Result × (ℕ × (List ℕ × W))
  read_inode_data node offs bytes out w =
      let left : ℕ = if ltb node.size offs then 0 else node.size - offs in
      let len : ℕ = if ltb node.size (u32 (offs + bytes)) then left else bytes in
      let (r, w1) = ops.set_target node w in
      let start : Reader W = record { world = w1; out = out; done = 0; offs = offs % size } in
      let (r1, s) = returned (read_page_data (offs / size) (last_page offs len) len start) in
      if u32 (offs + bytes) == 0
      then (invalid_input, (0, (out, w)))
      else if is_ok r
      then (r1, (s.done, (s.out, s.world)))
      else (r, (0, (out, w1)))
