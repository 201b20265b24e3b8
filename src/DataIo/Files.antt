-- ===== src/DataIo/Files.antt =====
-- Reading a range of a file.
use paffs.Prelude.{
  ℕ, ◌+◌, ◌-◌, ◌*◌, ◌/◌, ◌%◌, ◌≤◌, ◌<◌, ◌≡◌, refl, sym, ap, ◌∙◌, List, ltb, le→ltb, ◌==◌, false,
  if◌then◌else◌, u16, length, get_or, arith,
}
use native.Mathlib.Nat.{div-add-mod', mod-eq_of_lt, mod-lt, lt_of_mul-lt-mul_right, add-mul}
use paffs.Types.{ok, Config, Inode}
use paffs.Calls.{go}
use paffs.DataIo.{IoOps, Reader, sub32, last_page, read_page_data, read_inode_data}
use paffs.DataIo.Content.{View, file_byte, IoLaws}
use paffs.DataIo.Positions.{InPage, in_div, page_mono, last_page-InPage}
use paffs.DataIo.ReadPages.{CanReadAll, Read, read_pages_lem}

add_mul-sub :
    (first last size : ℕ) → first ≤ last → (last - first) * size + first * size ≡ last * size
add_mul-sub first last size h =
    let e : last ≡ last - first + first = omega arith in
    sym (add-mul (last - first) first size) ∙ ap (λ n. n * size) (sym e)

le-of_mul : (p k size : ℕ) → 0 < size → p * size ≤ k → k < 4294967296 → p < 4294967296
le-of_mul p k size h le lt = grind arith

module _ {W : Type 0} (c : Config) (size max_pages limit : ℕ) (ops : IoOps W)
    (laws : IoLaws c size max_pages limit ops) where
  -- A range that lies in the file, in fewer pages than the counter of the rounds can hold.
  pub record IsRange (offs bytes filesize : ℕ) : Type 0 where
    pub nonempty : 0 < size
    pub some : 0 < bytes
    pub inside : offs + bytes ≤ filesize
    pub in_limit : filesize ≤ limit * size
    pub small : offs + bytes + size < 4294967296
    pub few : last_page c size max_pages ops offs bytes < offs / size + 65536

  abbrev rounds_of : ℕ → ℕ → ℕ
  rounds_of offs bytes = last_page c size max_pages ops offs bytes + 1 - offs / size

  -- The pages of a range.
  pub record HasPages (offs bytes : ℕ) : Type 0 where
    pub start : offs / size * size + offs % size ≡ offs
    pub offset : offs % size < size
    pub ordered : offs / size ≤ last_page c size max_pages ops offs bytes
    pub in_file : last_page c size max_pages ops offs bytes < limit
    pub enough : bytes + offs % size ≤ rounds_of offs bytes * size
    pub small : last_page c size max_pages ops offs bytes < 4294967296
    pub rounds :
        u16 (sub32 (last_page c size max_pages ops offs bytes) (offs / size)) + 1
        ≡ rounds_of offs bytes

  pub range-HasPages : (offs bytes filesize : ℕ) → IsRange offs bytes filesize → HasPages offs bytes
  range-HasPages offs bytes filesize h =
      let last : ℕ = last_page c size max_pages ops offs bytes in
      let first : ℕ = offs / size in
      let a : InPage size first offs = in_div size offs h.nonempty in
      let b : InPage size last (offs + bytes - 1) =
        last_page-InPage c size max_pages ops offs bytes h.nonempty (omega arith) (omega arith) in
      let le : first ≤ last =
        page_mono size first last offs (offs + bytes - 1) a b (omega (arith, h.some)) in
      let cut : (last + 1 - first) * size + first * size ≡ (last + 1) * size =
        add_mul-sub first (last + 1) size (omega arith) in
      let begins : first * size + offs % size ≡ offs = div-add-mod' offs size in
      let no_wrap : last < 4294967296 =
        le-of_mul last (offs + bytes - 1) size h.nonempty b.above (omega (arith, h.small)) in
      record {
        start = begins;
        offset = mod-lt offs h.nonempty;
        ordered = le;
        in_file =
            lt_of_mul-lt-mul_right size (omega (arith, b.above, h.inside, h.in_limit, h.some));
        enough = omega (arith, cut, begins, b.below);
        small = no_wrap;
        rounds = omega (arith, h.few, le, no_wrap);
      }

  pub range-CanReadAll :
      (offs bytes filesize : ℕ) (v : View) (w : W) (out : List ℕ)
      → IsRange offs bytes filesize
      → laws.Shows w v
      → bytes ≤ length out
      → CanReadAll c size max_pages limit ops laws
          (rounds_of offs bytes)
          (offs / size)
          bytes
          v
          (record { world = w; out = out; done = 0; offs = offs % size })
  range-CanReadAll offs bytes filesize v w out h shown fits =
      let p : HasPages offs bytes = range-HasPages offs bytes filesize h in
      record {
        shown = shown;
        in_file = omega (arith, p.ordered, p.in_file);
        small = omega (arith, h.small, p.offset);
        nonempty = h.nonempty;
        offset = p.offset;
        so_far = omega arith;
        fits = fits;
        enough = omega (arith, p.enough);
      }

  -- A range of the file is read, into the front of the array.
  pub read_page_data_lem :
      (offs bytes filesize : ℕ) (v : View) (w : W) (out : List ℕ)
      → IsRange offs bytes filesize
      → laws.Shows w v
      → bytes ≤ length out
      → (s' : Reader W) × (read_page_data c size max_pages ops
            (offs / size)
            (last_page c size max_pages ops offs bytes)
            bytes
            (record { world = w; out = out; done = 0; offs = offs % size })
          ≡ go tt s')
        × Read c size max_pages limit ops laws v
            (offs / size)
            bytes
            (record { world = w; out = out; done = 0; offs = offs % size })
            s'
  unfolding read_page_data
  read_page_data_lem offs bytes filesize v w out h shown fits =
      let p : HasPages offs bytes = range-HasPages offs bytes filesize h in
      let (s', e, r) =
        read_pages_lem c size max_pages limit ops laws (rounds_of offs bytes) (offs / size) bytes v
          (record { world = w; out = out; done = 0; offs = offs % size })
          (range-CanReadAll offs bytes filesize v w out h shown fits) in
      (s', rw (le→ltb _ _ p.ordered, p.rounds) e, r)

  abbrev clamped : ℕ → ℕ → ℕ → ℕ
  clamped offs bytes filesize = if ltb filesize (offs + bytes) then filesize - offs else bytes

  pub read_inode_data_lem :
      (node : Inode) (offs bytes : ℕ) (out : List ℕ) (w w1 : W) (v : View)
      → offs + bytes < 4294967296
      → offs < node.size
      → IsRange offs (clamped offs bytes node.size) node.size
      → ops.set_target node w ≡ (ok, w1)
      → laws.Shows w1 v
      → bytes ≤ length out
      → (out' : List ℕ) × (w' : W) × (read_inode_data c size max_pages ops node offs bytes out w
          ≡ (ok, (clamped offs bytes node.size, (out', w'))))
        × laws.Shows w' v
        × ((i : ℕ)
            → get_or out' i 0 ≡ (
                if ltb i (clamped offs bytes node.size)
                then file_byte size v (offs + i)
                else get_or out i 0))
  unfolding read_inode_data
  read_inode_data_lem node offs bytes out w w1 v small inside range target shown fits =
      let len : ℕ = clamped offs bytes node.size in
      let (s', e, r) = read_page_data_lem offs len node.size v w1 out range shown (ground arith) in
      let p : HasPages offs len = range-HasPages offs len node.size range in
      let ne : (offs + bytes == 0) ≡ false = ground (arith, range) in
      let not_behind : ltb node.size offs ≡ false = ground arith in
      (
        s'.out,
        s'.world,
        rw (mod-eq_of_lt small, ne, not_behind, target, e, r.done_is) refl,
        r.shows,
        λ i. ground (arith, r.cells i, p.start, ap (file_byte size v) p.start),
      )
