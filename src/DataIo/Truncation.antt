-- ===== src/DataIo/Truncation.antt =====
-- `deleteInodeData` as a whole.
use paffs.Prelude.{
  ℕ, ◌+◌, ◌-◌, ◌*◌, ◌/◌, ◌%◌, ◌≤◌, ◌<◌, ◌≡◌, ◌≢◌, refl, sym, ap, subst, ◌∙◌, inl, Bool, false, not,
  ◌&&◌, leb, le→ltb, ==_iff, ==-ne, if◌then◌else◌, ℕ_discrete, arith,
}
use native.Mathlib.Nat.{
  div-add-mod', div-lt_iff_lt-mul, mod-eq_of_lt, lt_of_mul-lt-mul_right, zero-add,
}
use paffs.Types.{Result, ok, SummaryEntry, Inode, Config}
use paffs.Journal.{new_inode_size}
use paffs.PageState.{PageState}
use paffs.DataIo.{IoOps, with_addresses, last_page}
use paffs.DataIo.Delete.{Deleter, first_deleted, last_deleted, finish_delete, delete_inode_data}
use paffs.DataIo.Content.{View, HasAddresses, file_byte, IoLaws}
use paffs.DataIo.Positions.{InPage, in_div, page_mono, last_page-InPage}
use paffs.DataIo.Marks.{SameFile, SameFile-file_byte, IsOld, IsIdle, IsIdle-IsOld, invalidate-Shows}
use paffs.DataIo.Deleting.{DeleteLaws, IsCut, delete_pages_lem}

and_not-false : (b : Bool) → (b && not false) ≡ b
and_not-false b = ground arith

module _ {W : Type 0} (c : Config) (size max_pages limit : ℕ) (ops : IoOps W)
    (laws : IoLaws c size max_pages limit ops)
    (status_at : ℕ → ℕ → W → Result × (SummaryEntry × W)) where
  abbrev first : ℕ → ℕ
  first offs = first_deleted c size max_pages ops status_at offs

  abbrev last : ℕ → ℕ
  last filesize = last_deleted c size max_pages ops status_at filesize

  last_deleted-last_page : (n : ℕ) → n < 4294967296 → last n ≡ last_page c size max_pages ops 0 n
  unfolding last_deleted last_page
  last_deleted-last_page n small = rw (zero-add, mod-eq_of_lt small) refl

  first-le : (offs : ℕ) → first offs ≤ offs / size + 1
  unfolding first_deleted
  first-le offs = ground arith

  -- The pages in front of the first one that is deleted hold the bytes in front of the cut.
  front : (offs k : ℕ) → 0 < size → k < offs → k / size < first offs
  unfolding first_deleted
  front offs k some lt =
      let split : offs / size * size + offs % size ≡ offs = div-add-mod' offs size in
      let a : InPage size (k / size) k = in_div size k some in
      elim (ℕ_discrete (offs % size) 0) [
        | yes e ↦
            rw ((==_iff (offs % size) 0).1 e) ((div-lt_iff_lt-mul some).1 (omega (arith, split, e)))
        | no ne ↦
            let le : k / size ≤ offs / size =
              page_mono size (k / size) (offs / size) k offs a (in_div size offs some)
                (omega arith) in
            rw (==-ne (offs % size) 0 ne) (omega (arith, le))
      ]

  -- Behind the cut nothing is left, and in front of it everything.
  pub record IsTruncated (offs filesize : ℕ) (v v' : View) : Type 0 where
    pub front_kept : (k : ℕ) → k < offs → file_byte size v' k ≡ file_byte size v k
    pub pages_gone : (p : ℕ) → first offs ≤ p → p ≤ last filesize → v'.addr p ≡ 0
    pub pages_kept : (p : ℕ) → (p < first offs) → v'.addr p ≡ v.addr p

  cut-IsTruncated :
      (offs filesize : ℕ) (v v' : View)
      → 0 < size
      → IsCut c size max_pages limit ops laws status_at
          (first offs)
          (if leb (first offs) (last filesize) then last filesize - first offs + 1 else 0)
          v
          v'
      → IsTruncated offs filesize v v'
  unfolding file_byte
  cut-IsTruncated offs filesize v v' some h = record {
    front_kept = λ k lt. ground (
      arith,
      h.kept (k / size) (inl (front offs k some lt)),
      h.bytes (v.addr (k / size)) (k % size),
      h.bytes (v'.addr (k / size)) (k % size),
    );
    pages_gone = λ p low high. h.gone p low (ground arith);
    pages_kept = λ p lt. h.kept p (inl lt);
  }

  module _ (delete_laws : DeleteLaws c size max_pages limit ops laws status_at) where
    -- The inode that is stored in the tree.
    abbrev pub inode_after : Inode → ℕ → Deleter W → Inode
    inode_after node offs s = record (with_addresses (ops.addresses s.world) node) {
      size = offs;
      reserved_pages = s.reserved;
    }

    finish_lem :
        (node : Inode) (offs : ℕ) (s : Deleter W) (v : View)
        → laws.Shows s.world v
        → IsOld c size max_pages limit ops laws s.machine v
        → node.no ≡ v.target
        → (s' : Deleter W) × (v' : View) × (finish_delete c size max_pages ops status_at node offs s
            ≡ (ok, (inode_after node offs s, s')))
          × laws.Shows s'.world v'
          × SameFile v v'
    unfolding finish_delete
    finish_lem node offs s v shown old number =
        let has : HasAddresses v (inode_after node offs s) =
          rw (laws.addresses_lem s.world v shown) refl in
        let (w, updated, shown1) =
          laws.update_ok s.world v (inode_after node offs s) shown number has in
        let (v', shown2, same) =
          invalidate-Shows c size max_pages limit ops laws s.machine
            (ops.update_inode (inode_after node offs s) s.world).1 v
            (subst (λ (r : Result × W). laws.Shows r.1 v) (sym updated) shown1) old in
        (_, v', refl, laws.event_shows _ v' _ (laws.set_valid_shows _ v' shown2), same)

    IsTruncated-same :
        (offs filesize : ℕ) (v v1 v2 : View)
        → SameFile v1 v2
        → IsTruncated offs filesize v v1
        → IsTruncated offs filesize v v2
    IsTruncated-same offs filesize v v1 v2 same h = record {
      front_kept = λ k lt. SameFile-file_byte size v1 v2 k same ∙ h.front_kept k lt;
      pages_gone = λ p low high. same.same_addr p ∙ h.pages_gone p low high;
      pages_kept = λ p lt. same.same_addr p ∙ h.pages_kept p lt;
    }

    -- Of a file that the address cache is set to, and that has pages, with an idle page state machine: `deleteInodeData` at a place
    -- inside the file answers ok, sets the size to that place, takes every page behind it away,
    -- and keeps every byte in front of it.
    pub delete_inode_data_lem :
        (node : Inode) (offs : ℕ) (journal_mode : Bool) (m : PageState) (w : W) (v : View)
        → laws.Shows w v
        → node.no ≡ v.target
        → HasAddresses v node
        → IsIdle c size max_pages limit ops laws m
        → 0 < size
        → offs < node.size
        → node.size ≤ limit * size
        → node.size < 4294967296
        → node.reserved_pages ≢ 0
        → (node' : Inode) × (s' : Deleter W) × (v' : View) × (delete_inode_data c size max_pages ops
              status_at node offs journal_mode m w
            ≡ (ok, (node', s')))
          × (node'.size ≡ offs)
          × laws.Shows s'.world v'
          × HasAddresses v' node'
          × IsTruncated offs node.size v v'
    unfolding delete_inode_data
    delete_inode_data_lem node offs journal_mode m w v shown number has idle some inside in_limit
          small pages =
        let (w1, target, shown1) = laws.retarget_ok w v node shown number has in
        let start : Deleter W = record {
          world = ops.pages.add_event (new_inode_size node.no offs) w1;
          machine = m;
          reserved = node.reserved_pages;
        } in
        let rounds : ℕ =
          if leb (first offs) (last node.size) then last node.size - first offs + 1 else 0 in
        let inside_last : InPage size (last_page c size max_pages ops 0 node.size)
            (0 + node.size - 1) =
          last_page-InPage c size max_pages ops 0 node.size some (omega arith) (omega arith) in
        let low : last node.size < limit = lt_of_mul-lt-mul_right size (
          omega (
            arith,
            inside_last.above,
            ap (λ n. n * size) (last_deleted-last_page node.size small),
            in_limit,
            inside,
          )) in
        let start_low : offs / size < limit =
          (div-lt_iff_lt-mul some).1 (omega (arith, in_limit)) in
        let first_low : first offs ≤ limit = omega (arith, first-le offs, start_low) in
        let (s1, v1, e1, shown2, old, cut) =
          delete_pages_lem c size max_pages limit ops laws status_at delete_laws node journal_mode
            (first offs) rounds v start (laws.event_shows w1 v _ shown1) (ground (arith, low))
            (IsIdle-IsOld c size max_pages limit ops laws m v idle) in
        let (s2, v2, e2, shown3, same) =
          finish_lem node offs s1 v1 shown2 old (number ∙ sym cut.same_target) in
        (
          inode_after node offs s1,
          s2,
          v2,
          rw
              (
                laws.writable w v shown,
                ==-ne node.size offs (λ e. absurd (omega (arith, e))),
                le→ltb node.size offs (omega arith),
                target,
                ==-ne node.reserved_pages 0 pages,
                and_not-false (leb (first offs) (last node.size)),
                e1,
              )
              e2,
          refl,
          shown3,
          rw (same.same_addresses, laws.addresses_lem s1.world v1 shown2) refl,
          IsTruncated-same offs node.size v v1 v2 same
              (cut-IsTruncated offs node.size v v1 some cut),
        )
