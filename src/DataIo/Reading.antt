-- ===== src/DataIo/Reading.antt =====
-- One round of `readPageData` gives the bytes of a page.
use paffs.Prelude.{
  ℕ, ◌+◌, ◌-◌, ◌*◌, ◌/◌, ◌%◌, ◌≤◌, ◌<◌, ◌≡◌, ◌≢◌, refl, ap, ◌∙◌, ◌&&◌, ltb, leb, ◌==◌,
  if◌then◌else◌, ==_iff, ==-ne, ℕ_discrete, length, get_or, copy, fill, length-copy, length-fill,
  get_or-copy, get_or-fill, arith,
}
use native.Mathlib.Nat.{
  mul-add-div_right, mul-add-mod_self_right, div-eq_of_lt, mod-eq_of_lt, add-zero,
}
use paffs.Types.{ok, Config}
use paffs.Calls.{go}
use paffs.DataIo.{IoOps, Reader, sub32, to_read, read_hole, read_written, read_one, place_of}
use paffs.DataIo.Content.{View, page_byte, file_byte, IoLaws}

-- A position inside a page.
pub file_byte-in_page :
    (size : ℕ) (v : View) (page i : ℕ)
    → i < size
    → file_byte size v (page * size + i) ≡ page_byte v page i
unfolding file_byte
file_byte-in_page size v page i h =
    let q : (page * size + i) / size ≡ page =
      mul-add-div_right {m = size} (omega arith) page i
      ∙ ap (λ k. page + k) (div-eq_of_lt h)
      ∙ add-zero page in
    let r : (page * size + i) % size ≡ i = mul-add-mod_self_right page size i ∙ mod-eq_of_lt h in
    rw (q, r)

module _ {W : Type 0} (c : Config) (size max_pages limit : ℕ) (ops : IoOps W)
    (laws : IoLaws c size max_pages limit ops) where
  -- What one round leaves when it has taken `n` bytes from the page.
  pub record Took (v : View) (page n : ℕ) (s s' : Reader W) : Type 0 where
    pub shows : laws.Shows s'.world v
    pub done_is : s'.done ≡ s.done + n
    pub offs_is : s'.offs ≡ 0
    pub same_length : length s'.out ≡ length s.out
    pub cells :
        (i : ℕ)
        → get_or s'.out i 0 ≡ (
            if leb s.done i && ltb i (s.done + n)
            then page_byte v page (s.offs + (i - s.done))
            else get_or s.out i 0)

  -- How many bytes a round takes.
  abbrev pub taken : ℕ → Reader W → ℕ
  taken bytes s = if ltb size (bytes + s.offs - s.done) then size - s.offs else bytes - s.done

  -- The sizes fit 32 bits, and the array has room.
  pub record CanRead (bytes page : ℕ) (v : View) (s : Reader W) : Type 0 where
    pub shown : laws.Shows s.world v
    pub in_file : page < limit
    pub small : bytes + s.offs < 4294967296
    pub offset : s.offs < size
    pub so_far : s.done ≤ bytes
    pub fits : bytes ≤ length s.out

  to_read-taken :
      (bytes page : ℕ) (v : View) (s : Reader W)
      → CanRead bytes page v s
      → (to_read c size max_pages ops bytes s ≡ taken bytes s + s.offs)
        × (sub32 (to_read c size max_pages ops bytes s) s.offs ≡ taken bytes s)
        × (to_read c size max_pages ops bytes s ≤ size)
  unfolding to_read
  to_read-taken bytes page v s h = ground arith

  abbrev wanted : ℕ → Reader W → ℕ
  wanted bytes s = to_read c size max_pages ops bytes s

  read_one-found :
      (bytes page a : ℕ) (w : W) (s : Reader W)
      → ops.get_page page s.world ≡ (ok, (a, w))
      → read_one c size max_pages ops page bytes s ≡ (
          if a == 0
          then read_hole c size max_pages ops (wanted bytes s) (record s { world = w })
          else read_written c size max_pages ops a (wanted bytes s) (record s { world = w }))
  unfolding read_one
  read_one-found bytes page a w s e = rw e refl

  module _ (bytes page : ℕ) (v : View) (s : Reader W) (h : CanRead bytes page v s) where
    abbrev hole_after : W → Reader W
    hole_after w = record {
      world = w;
      out = fill 0 (taken bytes s) s.done 0 s.out;
      done = s.done + taken bytes s;
      offs = 0;
    }

    hole_lem :
        (w : W)
        → read_hole c size max_pages ops (wanted bytes s) (record s { world = w })
          ≡ go tt (hole_after w)
    unfolding read_hole
    hole_lem w = rw (to_read-taken bytes page v s h).1 refl

    hole-Took :
        (w : W) → laws.Shows w v → v.addr page ≡ 0 → Took v page (taken bytes s) s (hole_after w)
    hole-Took w shown e = record {
      shows = shown;
      done_is = refl;
      offs_is = refl;
      same_length = length-fill 0 (taken bytes s) s.done 0 s.out;
      cells = λ i. ground (arith, get_or-fill 0 (taken bytes s) s.done 0 s.out i, h, e);
    }

    abbrev written_after : W → Reader W
    written_after w = record {
      world = w;
      out = copy 0 (taken bytes s) s.offs s.done (ops.buffer w) s.out;
      done = s.done + taken bytes s;
      offs = 0;
    }

    written-Took :
        (w : W)
        → laws.Shows w v
        → v.addr page ≢ 0
        → ((i : ℕ)
            → i < taken bytes s + s.offs
            → get_or (ops.buffer w) i 0 ≡ v.byte (v.addr page) i)
        → Took v page (taken bytes s) s (written_after w)
    written-Took w shown ne same = record {
      shows = shown;
      done_is = refl;
      offs_is = refl;
      same_length = length-copy 0 (taken bytes s) s.offs s.done (ops.buffer w) s.out;
      cells = λ i. ground (
        arith,
        get_or-copy 0 (taken bytes s) s.offs s.done (ops.buffer w) s.out i,
        h,
        ne,
        same (s.offs + i - s.done),
      );
    }

    written_lem :
        (w w' : W)
        → laws.Shows w v
        → v.addr page ≢ 0
        → ops.read_page (place_of c size max_pages ops (v.addr page) w) (wanted bytes s) w
          ≡ (ok, w')
        → read_written c size max_pages ops (v.addr page) (wanted bytes s) (record s { world = w })
          ≡ go tt (written_after w')
    unfolding read_written
    written_lem w w' shown ne e =
        rw
          (
            laws.sane w v (v.addr page) shown (laws.addr_written w v page shown h.in_file ne),
            e,
            (to_read-taken bytes page v s h).1,
          )
          refl

  -- One round; where the page has an address, the page buffer has its bytes.
  pub read_one_lem :
      (bytes page : ℕ) (v : View) (s : Reader W)
      → CanRead bytes page v s
      → (s' : Reader W) × (read_one c size max_pages ops page bytes s ≡ go tt s')
        × Took v page (taken bytes s) s s'
        × (v.addr page ≢ 0
            → (i : ℕ) → i < taken bytes s + s.offs
            → get_or (ops.buffer s'.world) i 0 ≡ v.byte (v.addr page) i)
  read_one_lem bytes page v s h =
      let (w, got, shown) = laws.get_page_ok s.world v page h.shown h.in_file in
      elim (ℕ_discrete (v.addr page) 0) [
        | yes e ↦ (
          hole_after bytes page v s h w,
          read_one-found bytes page (v.addr page) w s got
              ∙ rw ((==_iff (v.addr page) 0).1 e) (hole_lem bytes page v s h w),
          hole-Took bytes page v s h w shown e,
          λ ne. absurd (ne e),
        )
        | no ne ↦
            let size_ok : wanted bytes s ≤ size = (to_read-taken bytes page v s h).2 in
            let (w', read, shown', same) =
              laws.read_page_ok w v (v.addr page) (wanted bytes s) shown
                (laws.addr_written w v page shown h.in_file ne) size_ok in
            let same' : (i : ℕ)
                → i < taken bytes s + s.offs
                → get_or (ops.buffer w') i 0 ≡ v.byte (v.addr page) i =
              λ i lt. same i (omega (arith, (to_read-taken bytes page v s h).0)) in
            (
              written_after bytes page v s h w',
              read_one-found bytes page (v.addr page) w s got
                  ∙ rw (==-ne (v.addr page) 0 ne) (written_lem bytes page v s h w w' shown ne read),
              written-Took bytes page v s h w' shown' ne same',
              λ _. same',
            )
      ]
