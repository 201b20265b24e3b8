-- ===== src/DataIo/RoundTrip.antt =====
-- Writing a range of a file, and reading it back.
use paffs.Prelude.{
  ℕ, ◌+◌, ◌-◌, ◌*◌, ◌/◌, ◌≤◌, ◌<◌, ◌≡◌, refl, sym, ap, subst, ◌∙◌, false, List, ltb, ◌==◌, le→ltb,
  if◌then◌else◌, if-elim, u32, length, get_or, arith,
}
use native.Mathlib.Nat.{mod-eq_of_lt}
use paffs.Types.{ok, Config, Inode}
use paffs.Journal.{data_io_topic}
use paffs.PageState.{PageState, invalidate}
use paffs.DataIo.{IoOps, with_addresses, sub32, last_page, read_inode_data}
use paffs.DataIo.Write.{Writer, finish_write, write_inode_data, announce_size}
use paffs.DataIo.Content.{View, HasAddresses, IoLaws}
use paffs.DataIo.Marks.{SameFile, IsOld, IsIdle, invalidate-Shows}
use paffs.DataIo.Files.{IsRange, HasPages, range-HasPages, read_inode_data_lem}
use paffs.DataIo.Storing.{Holds-same, Holds, Stored-Holds, CanWrite, write_page_data_lem}

module _ {W : Type 0} (c : Config) (size max_pages limit : ℕ) (ops : IoOps W)
    (laws : IoLaws c size max_pages limit ops) where
  -- The inode behind a write of the range.
  abbrev pub grown : Inode → ℕ → ℕ → ℕ → Inode
  grown node end reserved time = record node {
    reserved_pages = reserved;
    size = if ltb node.size end then end else node.size;
    modified = time;
  }

  -- The inode that is stored in the tree.
  abbrev pub inode_after : Inode → ℕ → Writer W → Inode
  inode_after node end s =
      grown (with_addresses (ops.addresses s.world) node) end s.reserved (ops.now s.world)

  finish_write_lem :
      (node : Inode) (offs bytes : ℕ) (s : Writer W) (v : View)
      → s.done ≡ bytes
      → offs + bytes < 4294967296
      → laws.Shows s.world v
      → IsOld c size max_pages limit ops laws s.machine v
      → node.no ≡ v.target
      → (s' : Writer W) × (v' : View) × (finish_write c size max_pages ops node offs s
          ≡ (ok, (inode_after node (offs + bytes) s, s')))
        × laws.Shows s'.world v'
        × (s'.done ≡ bytes)
        × SameFile v v'
  unfolding finish_write invalidate
  finish_write_lem node offs bytes s v done small shown old number =
      let end : u32 (s.done + offs) ≡ offs + bytes = ap (λ n. u32 (n + offs)) done ∙ omega arith in
      let has : HasAddresses v (inode_after node (offs + bytes) s) =
        rw (laws.addresses_lem s.world v shown) refl in
      let (w, updated, shown1) =
        laws.update_ok s.world v (inode_after node (offs + bytes) s) shown number has in
      let (v', shown2, same) =
        invalidate-Shows c size max_pages limit ops laws s.machine w v shown1 old in
      (
        record s {
          world =
              ops.set_valid
                (invalidate ops.pages max_pages max_pages data_io_topic s.machine w).1.1;
          machine = (invalidate ops.pages max_pages max_pages data_io_topic s.machine w).1.0;
        },
        v',
        rw (end, updated) refl,
        laws.set_valid_shows _ v' shown2,
        done,
        same,
      )

  abbrev pub end_size : Inode → ℕ → ℕ
  end_size node end = if ltb node.size end then end else node.size

  announced-Shows :
      (node : Inode) (end : ℕ) (w : W) (v : View)
      → laws.Shows w v
      → laws.Shows (announce_size c size max_pages ops node end w) v
  announced-Shows node end w v shown =
      if-elim (λ (x : W). laws.Shows x v) (ltb node.size end) _ _
        (λ _. laws.event_shows w v _ shown) (λ _. shown)

  -- On a file that the address cache is set to, with an idle page state machine, with room for the pages of the range, no more of
  -- them than the page state machine holds, below the 32-bit bound: `writeInodeData` answers ok, has
  -- written every byte, the file ends behind the range at least, it holds the new bytes, and all
  -- others as before.
  pub write_inode_data_lem :
      (node : Inode) (offs bytes : ℕ) (content : List ℕ) (m : PageState) (w : W) (v : View)
      → laws.Shows w v
      → node.no ≡ v.target
      → HasAddresses v node
      → IsIdle c size max_pages limit ops laws m
      → CanWrite c size max_pages limit ops laws offs bytes v
      → node.size ≤ limit * size
      → (node' : Inode) × (s' : Writer W) × (v' : View) × (write_inode_data c size max_pages ops
            node offs bytes content m w
          ≡ (ok, (node', s')))
        × (s'.done ≡ bytes)
        × laws.Shows s'.world v'
        × (node'.size ≡ end_size node (offs + bytes))
        × (node'.no ≡ v'.target)
        × HasAddresses v' node'
        × Holds c size max_pages limit ops laws offs bytes node.size content v v'
  unfolding write_inode_data
  write_inode_data_lem node offs bytes content m w v shown number has idle can in_limit =
      let (w1, target, shown1) = laws.retarget_ok w v node shown number has in
      let start : W = announce_size c size max_pages ops node (offs + bytes) w1 in
      let (s1, v1, e1, t) =
        write_page_data_lem c size max_pages limit ops laws offs bytes node.size node.reserved_pages
          content v start m can (announced-Shows node (offs + bytes) w1 v shown1) idle in
      let small : offs + bytes < 4294967296 = omega (arith, can.range.small) in
      let number1 : node.no ≡ v1.target = number ∙ sym t.same_target in
      let (s2, v2, e2, shown2, done2, same) =
        finish_write_lem node offs bytes s1 v1 t.done_is small t.shows t.old_is number1 in
      let p : HasPages c size max_pages limit ops laws offs bytes =
        range-HasPages c size max_pages limit ops laws offs bytes (offs + bytes) can.range in
      let few : ltb max_pages (sub32 (last_page c size max_pages ops offs bytes) (offs / size))
          ≡ false =
        le→ltb _ _ (omega (arith, p.ordered, p.small, can.few_pages)) in
      let ne : (offs + bytes == 0) ≡ false = ground (arith, can.range) in
      (
        inode_after node (offs + bytes) s1,
        s2,
        v2,
        rw (laws.writable w v shown, mod-eq_of_lt small, ne, few, target, e1) e2,
        done2,
        shown2,
        refl,
        number1 ∙ sym same.same_target,
        rw (same.same_addresses, laws.addresses_lem s1.world v1 t.shows) refl,
        Holds-same c size max_pages limit ops laws offs bytes node.size content v v1 v2 same (
            Stored-Holds c size max_pages limit ops laws offs bytes node.size node.reserved_pages
              content v v1 start m s1 can.range in_limit t),
      )

  -- What was written is read back: under the same conditions, `readInodeData` at the same place,
  -- with the inode that `writeInodeData` leaves, answers ok and as many bytes, and they are those
  -- that were written.
  pub read_inode_data-write_inode_data :
      (node : Inode) (offs bytes : ℕ) (content out : List ℕ) (m : PageState) (w : W) (v : View)
      → laws.Shows w v
      → node.no ≡ v.target
      → HasAddresses v node
      → IsIdle c size max_pages limit ops laws m
      → CanWrite c size max_pages limit ops laws offs bytes v
      → node.size ≤ limit * size
      → bytes ≤ length out
      → (node' : Inode) × (s' : Writer W) × (out' : List ℕ) × (w' : W) × (write_inode_data c size
            max_pages ops node offs bytes content m w
          ≡ (ok, (node', s')))
        × (read_inode_data c size max_pages ops node' offs bytes out s'.world
            ≡ (ok, (bytes, (out', w'))))
        × ((i : ℕ) → i < bytes → get_or out' i 0 ≡ get_or content i 0)
  read_inode_data-write_inode_data node offs bytes content out m w v shown number has idle can
        in_limit fits =
      let (node', s', v', written, done, shown', size', number', has', holds) =
        write_inode_data_lem node offs bytes content m w v shown number has idle can in_limit in
      let (w1, target, shown1) = laws.retarget_ok s'.world v' node' shown' number' has' in
      let small : offs + bytes < 4294967296 = omega (arith, can.range.small) in
      let reach : offs + bytes ≤ node'.size = ground (arith, size') in
      let below : node'.size ≤ limit * size = ground (arith, size', in_limit, can.range.in_limit) in
      let all : (if ltb node'.size (offs + bytes) then node'.size - offs else bytes) ≡ bytes =
        ground (arith, reach) in
      let range : IsRange c size max_pages limit ops laws offs bytes node'.size = record {
        nonempty = can.range.nonempty;
        some = can.range.some;
        inside = reach;
        in_limit = below;
        small = can.range.small;
        few = can.range.few;
      } in
      let (out', w', read, shown2, cells) =
        read_inode_data_lem c size max_pages limit ops laws node' offs bytes out s'.world w1 v'
          small (omega (arith, reach, can.range.some))
          (subst (λ n. IsRange c size max_pages limit ops laws offs n node'.size) (sym all) range)
          target shown1 fits in
      (
        node',
        s',
        out',
        w',
        written,
        read ∙ ap (λ n. (ok, (n, (out', w')))) all,
        λ i lt. ground (arith, cells i, all, holds.new_bytes i lt),
      )
