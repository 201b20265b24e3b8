-- ===== src/DataIo/Delete.antt =====
-- src/dataIO.cpp: `deleteInodeData`, which cuts a file off, and the part of `DataIO` in the replay
-- of the journal.
use paffs.Prelude.{
  ℕ, zero, suc, ◌+◌, ◌-◌, ◌/◌, ◌%◌, Bool, true, false, not, ◌&&◌, ltb, leb, ◌==◌, if◌then◌else◌,
  u16,
}
use paffs.Types.{Result, ok, bug, invalid_input, is_ok, SummaryEntry, dirty, Inode, Config}
use paffs.Calls.{Call, go, stop, ◌>>=◌, returned}
use paffs.Journal.{
  Entry, checkpoint, pagestate, tree, new_inode_size, update, PageEvent, success, data_io_topic,
}
use paffs.PageState.{
  PageState, JournalState, clear, replace, invalidate, process_entry, signal_end_of_log,
}
use paffs.Addr.{extract_logical_area, extract_page_offs}
use paffs.DataIo.{with_addresses, IoOps, sub32, is_sane}

pub record Deleter (W : Type 0) : Type 0 where
  pub world : W
  pub machine : PageState
  pub reserved : ℕ

abbrev pub is_dirty : SummaryEntry → Bool
is_dirty dirty = true
is_dirty _ = false

-- `status_at` is `getPageStatus` of the summary cache.
module _ {W : Type 0} (c : Config) (size max_pages : ℕ) (ops : IoOps W)
    (status_at : ℕ → ℕ → W → Result × (SummaryEntry × W)) where
  -- The page is given up: the result of `replacePage` is not looked at.
  unfoldable pub forget_page : Inode → ℕ → ℕ → Call (Deleter W) (Unit {0})
  forget_page node page addr s =
      let (_, (m, w)) =
        replace ops.pages max_pages max_pages data_io_topic 0 addr node.no page s.machine s.world in
      let (r, w1) = ops.set_page page 0 w in
      if is_ok r
      then go tt (record { world = w1; machine = m; reserved = u16 (s.reserved + 65535) })
      else stop r (record { world = w1; machine = m; reserved = s.reserved })

  -- The checks of a page; a restart accepts pages that are dirty already.
  unfoldable pub check_page : Bool → ℕ → Call (Deleter W) (Unit {0})
  check_page journal_mode addr s =
      let (r, (state, w)) =
        status_at (extract_logical_area addr) (extract_page_offs addr) s.world in
      if not (is_sane c size max_pages ops addr s.world)
      then stop bug s
      else if journal_mode
      then go tt s
      else if is_dirty state
      then stop bug (record s { world = w })
      else if is_ok r
      then go tt (record s { world = w })
      else stop r (record s { world = w })

  -- One round of the loop.
  unfoldable pub delete_one : Inode → Bool → ℕ → Call (Deleter W) (Unit {0})
  delete_one node journal_mode page s =
      let (r, (addr, w)) = ops.get_page page s.world in
      let s1 : Deleter W = record s { world = w } in
      if not (is_ok r)
      then stop r s1
      else if addr == 0
      then go tt s1
      else (check_page journal_mode addr >>= λ _. forget_page node page addr) s1

  -- From the last page down to the page `from`.
  unfoldable pub delete_pages : Inode → Bool → ℕ → ℕ → Call (Deleter W) (Unit {0})
  delete_pages node journal_mode from zero s = go tt s
  delete_pages node journal_mode from (suc n) s =
      (delete_one node journal_mode (n + from) >>= λ _. delete_pages node journal_mode from n) s

  unfoldable pub first_deleted : ℕ → ℕ
  first_deleted offs = if offs % size == 0 then offs / size else offs / size + 1

  unfoldable pub last_deleted : ℕ → ℕ
  last_deleted filesize =
      if filesize % size == 0 then sub32 (filesize / size) 1 else filesize / size

  unfoldable pub finish_delete : Inode → ℕ → Deleter W → Result × (Inode × Deleter W)
  finish_delete node offs s =
      let cut : Inode = record (with_addresses (ops.addresses s.world) node) {
        size = offs;
        reserved_pages = s.reserved;
      } in
      let w1 : W = (ops.update_inode cut s.world).1 in
      let (_, (m, w2)) = invalidate ops.pages max_pages max_pages data_io_topic s.machine w1 in
      (
        ok,
        (
          cut,
          record s {
            world = ops.pages.add_event (checkpoint data_io_topic) (ops.set_valid w2);
            machine = m;
          },
        ),
      )

  unfoldable pub delete_inode_data : Inode → ℕ → Bool → PageState → W → Result × (Inode × Deleter W)
  delete_inode_data node offs journal_mode m w =
      let untouched : Deleter W = record {
        world = w;
        machine = m;
        reserved = node.reserved_pages;
      } in
      let from : ℕ = first_deleted offs in
      let to : ℕ = last_deleted node.size in
      let (r, w1) = ops.set_target node w in
      let start : Deleter W = record untouched {
        world = ops.pages.add_event (new_inode_size node.no offs) w1;
      } in
      let rounds : ℕ = if leb from to && not (node.reserved_pages == 0) then to - from + 1 else 0 in
      let (r1, s) = returned (delete_pages node journal_mode from rounds start) in
      if ops.read_only w
      then (bug, (node, untouched))
      else if node.size == offs
      then (ok, (node, untouched))
      else if ltb node.size offs
      then (invalid_input, (node, untouched))
      else if not (is_ok r)
      then (r, (node, record untouched { world = w1 }))
      else if is_ok r1
      then finish_delete node offs s
      else (
        r1,
        (record (with_addresses (ops.addresses s.world) node) { reserved_pages = s.reserved }, s),
      )

  -- What `DataIO` keeps while the journal is read.
  pub record Replay : Type 0 where
    pub machine : PageState
    pub inode_no : ℕ
    pub last_size : ℕ
    pub inode_valid : Bool
    pub modified : Bool
    pub foreign_success : Bool
    pub write_truncate : Bool

  unfoldable pub reset_state : Replay
  reset_state = record {
    machine = clear ops.pages max_pages max_pages data_io_topic;
    inode_no = 0;
    last_size = 0;
    inode_valid = false;
    modified = false;
    foreign_success = false;
    write_truncate = false;
  }

  abbrev is_update : Entry → Bool
  is_update (tree (update _)) = true
  is_update _ = false

  unfoldable pub is_interested_in : Entry → Replay → Bool
  is_interested_in x s = s.modified && not s.foreign_success && is_update x

  abbrev feed : PageEvent → Replay → Result × Replay
  feed x s =
      let (r, m) = process_entry ops.pages max_pages max_pages data_io_topic x s.machine in
      (r, record s { machine = m })

  -- The same size again shows a pair of a write and a truncation.
  abbrev note_size : ℕ → ℕ → Replay → Replay
  note_size inode bytes s =
      if s.inode_valid && s.inode_no == inode && s.last_size == bytes
      then record s { write_truncate = true }
      else record s { inode_no = inode; last_size = bytes; inode_valid = true; modified = false }

  unfoldable pub process : Entry → Replay → Result × Replay
  process (new_inode_size inode bytes) s = (ok, note_size inode bytes s)
  process (pagestate _ x) s = feed x (record s { modified = true })
  process (tree (update _)) s = feed success (record s { foreign_success = true })
  process (tree _) s = (ok, s)
  process _ s = (bug, s)

  -- Whether the operation that the log shows is to be completed.
  abbrev pub is_completed : JournalState → Replay → Bool
  is_completed JournalState.recover s = s.inode_valid
  is_completed JournalState.invalid s = s.inode_valid && s.write_truncate
  is_completed JournalState.fine s = s.inode_valid && s.foreign_success

  -- The inode gets the size from the log, or is cut off to it.
  unfoldable pub complete : Inode → Replay → PageState → W → W
  complete node s m w =
      if node.size == s.last_size
      then w
      else if ltb node.size s.last_size
      then (if s.modified then (ops.update_inode (record node { size = s.last_size }) w).1 else w)
      else (delete_inode_data node s.last_size true m w).1.1.world

  -- `getInode` of the tree, and `manageActiveAreaFull` for both types of area. An inode that is
  -- not found ends it before the checkpoint.
  unfoldable pub finish_log : (ℕ → W → Result × (Inode × W)) → (W → W) → Replay → W → W
  finish_log get_inode manage_areas s w =
      let (state, (m, w1)) =
        signal_end_of_log ops.pages max_pages max_pages data_io_topic s.machine w in
      let (r, (node, w2)) = get_inode s.inode_no w1 in
      let closed = λ (x : W). ops.pages.add_event (checkpoint data_io_topic) (manage_areas x) in
      if not (is_completed state s)
      then closed w1
      else if is_ok r
      then closed (complete node s m w2)
      else w2
