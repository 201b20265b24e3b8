-- ===== src/DataIo/Write.antt =====
-- src/dataIO.cpp: `writePageData` and `writeInodeData`.
use paffs.Prelude.{
  ℕ, zero, suc, ◌+◌, ◌-◌, ◌*◌, ◌/◌, ◌%◌, Bool, true, false, not, ◌&&◌, ◌||◌, List, ltb, ◌==◌,
  if◌then◌else◌, u16, u32, copy, fill,
}
use paffs.Types.{
  Result, bug, no_space, too_big, invalid_input, is_ok, data_area, AreaStatus, active, Inode,
  Config,
}
use paffs.Calls.{Call, Step, go, stop, ◌>>=◌, ◌>>◌, returned}
use paffs.Journal.{data_io_topic, new_inode_size}
use paffs.PageState.{PageState, replace, invalidate}
use paffs.Superblock
use paffs.Superblock.{Superblock}
use paffs.Addr.{combine_address}
use paffs.DataIo.{with_addresses, IoOps, Reader, sub32, place_of, read_page_data, last_page}

-- `*bytesWritten`, the offset in the page that comes next, and the inode's `reservedPages`.
pub record Writer (W : Type 0) : Type 0 where
  pub world : W
  pub machine : PageState
  pub done : ℕ
  pub offs : ℕ
  pub reserved : ℕ

abbrev is_active : AreaStatus → Bool
is_active active = true
is_active _ = false

abbrev is_full : Result → Bool
is_full no_space = true
is_full _ = false

module _ {W : Type 0} (c : Config) (size max_pages : ℕ) (ops : IoOps W) where
  -- The search for the new page: an area that can be written, and a free page in it.
  unfoldable pub claim : Call (Writer W) ℕ
  claim s =
      let (r, w) = ops.find_writable s.world in
      let area : ℕ = Superblock.get_active_area c data_area (ops.area_map w) in
      let (r1, (page, w1)) = ops.find_first_free area w in
      let area1 : ℕ = Superblock.get_active_area c data_area (ops.area_map w1) in
      if not (is_ok r)
      then stop r (record s { world = w })
      else if not (is_active (Superblock.get_status c area (ops.area_map w)))
      then stop bug (record s { world = w })
      else if is_full r1
      then stop bug (record s { world = w1 })
      else go (combine_address area1 page) (record s { world = w1 })

  unfoldable pub get_old : ℕ → Call (Writer W) ℕ
  get_old page s =
      let (r, (addr, w)) = ops.get_page page s.world in
      if is_ok r then go addr (record s { world = w }) else stop r (record s { world = w })

  -- The result of `replacePage` is only printed.
  unfoldable pub note_replaced : ℕ → ℕ → ℕ → Call (Writer W) (Unit {0})
  note_replaced neu old page s =
      let (r, (m, w)) =
        replace ops.pages max_pages max_pages data_io_topic neu old (ops.target_no s.world) page
          s.machine s.world in
      go tt (record s { world = w; machine = m })

  -- `btw`, before it may grow
  unfoldable pub to_write : ℕ → Writer W → ℕ
  to_write bytes s =
      let left : ℕ = sub32 bytes s.done in if ltb size (left + s.offs) then size - s.offs else left

  -- `btr`: how many bytes of the page the file has.
  unfoldable pub valid_bytes : ℕ → ℕ → ℕ
  valid_bytes page filesize =
      if ltb filesize (u32 ((page + 1) * size))
      then (if ltb (u32 (page * size)) filesize then filesize - page * size else 0)
      else size

  -- The end is tested with the number of the page counted from the first one of the write.
  unfoldable pub is_misaligned : ℕ → ℕ → ℕ → Writer W → Bool
  is_misaligned round btw filesize s =
      ltb 0 s.offs || (ltb (btw + s.offs) size && ltb (round * size + btw) filesize)

  -- The old page, or zeros, in the page buffer. The read writes into the buffer itself.
  unfoldable pub fill_old : ℕ → ℕ → ℕ → Call (Writer W) (Unit {0})
  fill_old old page btr s =
      let start : Reader W = record {
        world = s.world;
        out = ops.buffer s.world;
        done = 0;
        offs = 0;
      } in
      let (r, back) = returned (read_page_data c size max_pages ops page page btr start) in
      if old == 0
      then go tt
          (record s { world = ops.put_buffer (fill 0 size 0 0 (ops.buffer s.world)) s.world })
      else if is_ok r && back.done == btr
      then go tt (record s { world = back.world })
      else stop bug (record s { world = back.world })

  -- The new bytes, at the offset in the page buffer.
  unfoldable pub put_new : ℕ → List ℕ → Call (Writer W) (Unit {0})
  put_new btw content s = go tt (record s {
    world = ops.put_buffer (copy 0 btw s.done s.offs content (ops.buffer s.world)) s.world;
    done = s.done + btw;
    offs = 0;
  })

  -- Answers how many bytes of the page are to be written.
  unfoldable pub fill_buffer : ℕ → ℕ → ℕ → List ℕ → ℕ → ℕ → Call (Writer W) ℕ
  fill_buffer old page round content bytes filesize s =
      let btw : ℕ = to_write bytes s in
      let btr : ℕ = valid_bytes page filesize in
      let whole : ℕ = if ltb (s.offs + btw) btr then btr else s.offs + btw in
      let merged : Step (Writer W) ℕ =
        (fill_old old page btr >>= λ _. put_new btw content >>= λ _. go whole) s in
      if is_misaligned round btw filesize s then merged else (put_new btw content >>= λ _. go btw) s

  unfoldable pub write_out : ℕ → ℕ → Call (Writer W) (Unit {0})
  write_out neu n s =
      let (r, w) = ops.write_page (place_of c size max_pages ops neu s.world) n s.world in
      if is_ok r then go tt (record s { world = w }) else stop r (record s { world = w })

  -- `setPage`, whose result is not looked at, and a page more if there was none.
  unfoldable pub set_new : ℕ → ℕ → ℕ → Call (Writer W) (Unit {0})
  set_new page neu old s =
      let reserved : ℕ = if old == 0 then u16 (s.reserved + 1) else s.reserved in
      go tt (record s { world = (ops.set_page page neu s.world).1; reserved = reserved })

  unfoldable pub close_full : Call (Writer W) (Unit {0})
  close_full s =
      let (r, w) = ops.manage_full s.world in
      if is_ok r then go tt (record s { world = w }) else stop r (record s { world = w })

  -- One round of `writePageData`; `round` is counted from 0.
  unfoldable pub write_one : ℕ → ℕ → List ℕ → ℕ → ℕ → Call (Writer W) (Unit {0})
  write_one from round content bytes filesize = do
    neu ← claim
    old ← get_old (round + from)
    note_replaced neu old (round + from)
    n ← fill_buffer old (round + from) round content bytes filesize
    write_out neu n
    set_new (round + from) neu old
    close_full

  unfoldable pub write_pages : ℕ → ℕ → ℕ → List ℕ → ℕ → ℕ → Call (Writer W) (Unit {0})
  write_pages zero from round content bytes filesize s = go tt s
  write_pages (suc rounds) from round content bytes filesize s =
      (write_one from round content bytes filesize >>= λ _.
      write_pages rounds from (round + 1) content bytes filesize)
        s

  unfoldable pub write_page_data : ℕ → ℕ → List ℕ → ℕ → ℕ → Call (Writer W) (Unit {0})
  write_page_data from to content bytes filesize s =
      if ops.read_only s.world
      then stop bug s
      else if ltb size s.offs
      then stop bug s
      else if ltb to from
      then stop bug s
      else write_pages (u16 (sub32 to from) + 1) from 0 content bytes filesize s

  -- What `writeInodeData` does behind the pages.
  unfoldable pub finish_write : Inode → ℕ → Writer W → Result × (Inode × Writer W)
  finish_write node offs s =
      let grown : Inode = record (with_addresses (ops.addresses s.world) node) {
        reserved_pages = s.reserved;
        size = if ltb node.size (u32 (s.done + offs)) then u32 (s.done + offs) else node.size;
        modified = ops.now s.world;
      } in
      let (r, w) = ops.update_inode grown s.world in
      let (r1, (m, w1)) = invalidate ops.pages max_pages max_pages data_io_topic s.machine w in
      if is_ok r
      then (r1, (grown, record s { world = ops.set_valid w1; machine = m }))
      else (r, (grown, record s { world = w }))

  -- The new size goes into the journal before the pages are written.
  abbrev pub announce_size : Inode → ℕ → W → W
  announce_size node end w =
      if ltb node.size end then ops.pages.add_event (new_inode_size node.no end) w else w

  unfoldable pub write_inode_data :
      Inode → ℕ → ℕ → List ℕ → PageState → W → Result × (Inode × Writer W)
  write_inode_data node offs bytes content m w =
      let end : ℕ = u32 (offs + bytes) in
      let untouched : Writer W = record {
        world = w;
        machine = m;
        done = 0;
        offs = 0;
        reserved = node.reserved_pages;
      } in
      let (r, w1) = ops.set_target node w in
      let start : Writer W = record untouched {
        world = announce_size node end w1;
        offs = offs % size;
      } in
      let (r1, s) = returned (
        write_page_data (offs / size) (last_page c size max_pages ops offs bytes) content bytes
          node.size start) in
      if ops.read_only w
      then (bug, (node, untouched))
      else if end == 0
      then (invalid_input, (node, untouched))
      else if ltb max_pages (sub32 (last_page c size max_pages ops offs bytes) (offs / size))
      then (too_big, (node, untouched))
      else if not (is_ok r)
      then (r, (node, record untouched { world = w1 }))
      else if is_ok r1
      then finish_write node offs s
      else (
        r1,
        (record (with_addresses (ops.addresses s.world) node) { reserved_pages = s.reserved }, s),
      )
