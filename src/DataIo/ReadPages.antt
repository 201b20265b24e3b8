-- ===== src/DataIo/ReadPages.antt =====
-- The rounds of `readPageData`: the rest of the bytes of a range, each from its place in the file.
use paffs.Prelude.{
  ℕ, zero, suc, ◌+◌, ◌-◌, ◌*◌, ◌≤◌, ◌<◌, ◌≡◌, refl, ap, ◌∙◌, ◌&&◌, ltb, leb, if◌then◌else◌, length,
  get_or, arith,
}
use paffs.Types.{Config}
use paffs.Calls.{go, bind-go}
use paffs.DataIo.{IoOps, Reader, read_one, read_pages}
use paffs.DataIo.Content.{View, file_byte, IoLaws}
use paffs.DataIo.Reading.{file_byte-in_page, Took, taken, CanRead, read_one_lem}

module _ {W : Type 0} (c : Config) (size max_pages limit : ℕ) (ops : IoOps W)
    (laws : IoLaws c size max_pages limit ops) where
  -- What the loop leaves: the rest of the bytes, each from its place in the file.
  pub record Read (v : View) (page bytes : ℕ) (s s' : Reader W) : Type 0 where
    pub shows : laws.Shows s'.world v
    pub done_is : s'.done ≡ bytes
    pub same_length : length s'.out ≡ length s.out
    pub cells :
        (i : ℕ)
        → get_or s'.out i 0 ≡ (
            if leb s.done i && ltb i bytes
            then file_byte size v (page * size + s.offs + (i - s.done))
            else get_or s.out i 0)

  next_page : (page i : ℕ) → (page + 1) * size + i ≡ page * size + (size + i)
  next_page page i = grind arith

  -- The bytes of the first round, and those of the others.
  Took-Read :
      (v : View) (page bytes : ℕ) (s s1 s' : Reader W)
      → CanRead c size max_pages limit ops laws bytes page v s
      → Took c size max_pages limit ops laws v page
          (taken c size max_pages limit ops laws bytes s)
          s
          s1
      → Read v (page + 1) bytes s1 s'
      → Read v page bytes s s'
  Took-Read v page bytes s s1 s' h t r = record {
    shows = r.shows;
    done_is = r.done_is;
    same_length = r.same_length ∙ t.same_length;
    cells = λ i. ground (
      arith,
      h,
      r.cells i,
      t.cells i,
      t.done_is,
      t.offs_is,
      file_byte-in_page size v page (s.offs + (i - s.done)),
      next_page page (i - s1.done),
      ap (file_byte size v) (next_page page (i - s1.done)),
    );
  }

  -- `rounds` rounds are enough for the bytes that are left.
  pub record CanReadAll (rounds page bytes : ℕ) (v : View) (s : Reader W) : Type 0 where
    pub shown : laws.Shows s.world v
    pub in_file : page + rounds ≤ limit
    pub small : bytes + s.offs < 4294967296
    pub nonempty : 0 < size
    pub offset : s.offs < size
    pub so_far : s.done ≤ bytes
    pub fits : bytes ≤ length s.out
    pub enough : bytes + s.offs ≤ rounds * size + s.done

  CanReadAll-next :
      (rounds page bytes : ℕ) (v : View) (s s1 : Reader W)
      → CanReadAll (suc rounds) page bytes v s
      → Took c size max_pages limit ops laws v page
          (taken c size max_pages limit ops laws bytes s)
          s
          s1
      → CanReadAll rounds (page + 1) bytes v s1
  CanReadAll-next rounds page bytes v s s1 h t =
      let left : suc rounds * size ≡ size + rounds * size = grind arith in
      record {
        shown = t.shows;
        in_file = omega arith;
        small = ground (arith, t.offs_is, h);
        nonempty = h.nonempty;
        offset = ground (arith, t.offs_is, h);
        so_far = ground (arith, t.done_is, h);
        fits = ground (arith, t.same_length, h);
        enough = ground (arith, t.offs_is, t.done_is, left, h);
      }

  pub read_pages_lem :
      (rounds page bytes : ℕ) (v : View) (s : Reader W)
      → CanReadAll rounds page bytes v s
      → (s' : Reader W) × (read_pages c size max_pages ops rounds page bytes s ≡ go tt s')
        × Read v page bytes s s'
  unfolding read_pages
  read_pages_lem zero page bytes v s h = (
    s,
    refl,
    record {
      shows = h.shown;
      done_is = omega arith;
      same_length = refl;
      cells = λ i. ground (arith, h);
    },
  )
  read_pages_lem (suc rounds) page bytes v s h =
      let one : CanRead c size max_pages limit ops laws bytes page v s = record {
        shown = h.shown;
        in_file = omega arith;
        small = h.small;
        offset = h.offset;
        so_far = h.so_far;
        fits = h.fits;
      } in
      let (s1, e1, t, _) = read_one_lem c size max_pages limit ops laws bytes page v s one in
      let (s', e', r) =
        read_pages_lem rounds (page + 1) bytes v s1
          (CanReadAll-next rounds page bytes v s s1 h t) in
      (
        s',
        bind-go (read_one c size max_pages ops page bytes)
              (λ _. read_pages c size max_pages ops rounds (page + 1) bytes) e1
            ∙ e',
        Took-Read v page bytes s s1 s' one t r,
      )
