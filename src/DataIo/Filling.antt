-- ===== src/DataIo/Filling.antt =====
-- The page buffer before a page is written: the new bytes, with those of the old page around them.
use paffs.Prelude.{
  ℕ, ◌+◌, ◌-◌, ◌*◌, ◌≤◌, ◌<◌, ◌≡◌, refl, ap, ◌∙◌, ◌⊎◌, inl, inr, ◌&&◌, ◌||◌, List, ltb, leb, ==_iff,
  ==-ne, ℕ_discrete, Bool-cases, if◌then◌else◌, le→ltb, u16, length, get_or, copy, fill,
  length-copy, length-fill, get_or-copy, get_or-fill, arith,
}
use native.Mathlib.Nat.{add-mul}
use paffs.Types.{Config}
use paffs.Calls.{go, ◌>>=◌, bind-go}
use paffs.DataIo.{IoOps, Reader, sub32, read_one, read_pages, read_page_data}
use paffs.DataIo.Write.{
  Writer, to_write, valid_bytes, is_misaligned, fill_old, put_new, fill_buffer,
}
use paffs.DataIo.Content.{View, page_byte, IoLaws}
use paffs.DataIo.Reading.{CanRead, read_one_lem}

module _ {W : Type 0} (c : Config) (size max_pages limit : ℕ) (ops : IoOps W)
    (laws : IoLaws c size max_pages limit ops) where
  -- The part of the page that belongs to the file.
  pub valid_bytes_lem :
      (page filesize : ℕ)
      → (page + 1) * size < 4294967296
      → (valid_bytes c size max_pages ops page filesize ≤ size)
        × ((i : ℕ)
            → i < size
            → page * size + i < filesize
            → i < valid_bytes c size max_pages ops page filesize)
  unfolding valid_bytes
  valid_bytes_lem page filesize small =
      let next : (page + 1) * size ≡ page * size + size = grind arith in
      (ground (arith, next), λ i lt inside. ground (arith, next))

  -- What a round needs to hold: the sizes fit their types.
  pub record CanFill (page bytes filesize : ℕ) (v : View) (s : Writer W) : Type 0 where
    pub shown : laws.Shows s.world v
    pub in_file : page < limit
    pub nonempty : 0 < size
    pub offset : s.offs < size
    pub so_far : s.done ≤ bytes
    pub small : bytes + size < 4294967296
    pub page_small : (page + 1) * size < 4294967296

  abbrev pub written : ℕ → Writer W → ℕ
  written bytes s = if ltb size (bytes - s.done + s.offs) then size - s.offs else bytes - s.done

  pub to_write-written :
      (page bytes filesize : ℕ) (v : View) (s : Writer W)
      → CanFill page bytes filesize v s
      → (to_write c size max_pages ops bytes s ≡ written bytes s)
        × (s.offs + written bytes s ≤ size)
  unfolding to_write
  to_write-written page bytes filesize v s h = ground arith

  one_page :
      (page bytes : ℕ) (s s' : Reader W)
      → read_one c size max_pages ops page bytes s ≡ go tt s'
      → read_page_data c size max_pages ops page page bytes s ≡ go tt s'
  unfolding read_page_data read_pages
  one_page page bytes s s' e =
      let once : u16 (sub32 page page) + 1 ≡ 1 = omega arith in
      rw (le→ltb page page (omega arith), once)
        (bind-go (read_one c size max_pages ops page bytes)
          (λ _. read_pages c size max_pages ops 0 (page + 1) bytes) e)

  -- The buffer holds the old page up to `btr`.
  fill_old_lem :
      (page bytes filesize btr : ℕ) (v : View) (s : Writer W)
      → CanFill page bytes filesize v s
      → btr ≤ size
      → (w : W) × (fill_old c size max_pages ops (v.addr page) page btr s
          ≡ go tt (record s { world = w }))
        × laws.Shows w v
        × ((i : ℕ) → i < btr → get_or (ops.buffer w) i 0 ≡ page_byte v page i)
  unfolding fill_old
  fill_old_lem page bytes filesize btr v s h le = elim (ℕ_discrete (v.addr page) 0) [
    | yes e ↦
        let len : length (ops.buffer s.world) ≡ size = laws.buffer_length s.world v h.shown in
        let zeros : List ℕ = fill 0 size 0 0 (ops.buffer s.world) in
        (
          ops.put_buffer zeros s.world,
          rw ((==_iff (v.addr page) 0).1 e) refl,
          laws.put_buffer_shows s.world v zeros h.shown
              (length-fill 0 size 0 0 (ops.buffer s.world) ∙ len),
          λ i lt.
              rw (laws.put_buffer_lem s.world zeros)
                (ground (arith, get_or-fill 0 size 0 0 (ops.buffer s.world) i, len, e)),
        )
    | no ne ↦
        let start : Reader W = record {
          world = s.world;
          out = ops.buffer s.world;
          done = 0;
          offs = 0;
        } in
        let len : length (ops.buffer s.world) ≡ size = laws.buffer_length s.world v h.shown in
        let can : CanRead c size max_pages limit ops laws btr page v start = record {
          shown = h.shown;
          in_file = h.in_file;
          small = omega (arith, h.small);
          offset = h.nonempty;
          so_far = omega arith;
          fits = omega (arith, len);
        } in
        let (s', e, t, same) = read_one_lem c size max_pages limit ops laws btr page v start can in
        let done : s'.done ≡ btr = ground (arith, t.done_is) in
        (
          s'.world,
          rw (==-ne (v.addr page) 0 ne, one_page page btr start s' e, (==_iff s'.done btr).1 done)
              refl,
          t.shows,
          λ i lt. same ne i (ground arith) ∙ ground (arith, ne),
        )
  ]

  -- What a round leaves in the buffer, of which `n` bytes are written out.
  pub record Filled (page bytes filesize n : ℕ) (content : List ℕ) (v : View) (s s' : Writer W)
      : Type 0 where
    pub shows : laws.Shows s'.world v
    pub done_is : s'.done ≡ s.done + written bytes s
    pub offs_is : s'.offs ≡ 0
    pub reserved_is : s'.reserved ≡ s.reserved
    pub machine_is : s'.machine ≡ s.machine
    pub n_size : n ≤ size
    pub new_bytes :
        (i : ℕ)
        → s.offs ≤ i
        → i < s.offs + written bytes s
        → (i < n) × (get_or (ops.buffer s'.world) i 0 ≡ get_or content (s.done + (i - s.offs)) 0)
    pub old_bytes :
        (i : ℕ)
        → i < size
        → page * size + i < filesize
        → (i < s.offs) ⊎ (s.offs + written bytes s ≤ i)
        → (i < n) × (get_or (ops.buffer s'.world) i 0 ≡ page_byte v page i)

  -- The new bytes over the old ones.
  abbrev put_after : ℕ → List ℕ → W → Writer W → Writer W
  put_after btw content w s = record s {
    world = ops.put_buffer (copy 0 btw s.done s.offs content (ops.buffer w)) w;
    done = s.done + btw;
    offs = 0;
  }

  module _ (page bytes filesize : ℕ) (content : List ℕ) (v : View) (s : Writer W)
      (h : CanFill page bytes filesize v s) where
    abbrev btw : ℕ
    btw = written bytes s

    put-Shows : (w : W) → laws.Shows w v → laws.Shows (put_after btw content w s).world v
    put-Shows w shown =
        laws.put_buffer_shows w v _ shown
          (length-copy 0 btw s.done s.offs content (ops.buffer w) ∙ laws.buffer_length w v shown)

    put_cells :
        (w : W) (i : ℕ)
        → laws.Shows w v
        → get_or (ops.buffer (put_after btw content w s).world) i 0 ≡ (
            if leb s.offs i && ltb i (s.offs + btw)
            then get_or content (s.done + i - s.offs) 0
            else get_or (ops.buffer w) i 0)
    put_cells w i shown =
        rw (laws.put_buffer_lem w (copy 0 btw s.done s.offs content (ops.buffer w))) (
          get_or-copy 0 btw s.done s.offs content (ops.buffer w) i (
            omega (
              arith,
              laws.buffer_length w v shown,
              (to_write-written page bytes filesize v s h).1,
            )))

    put-Filled :
        (w : W) (n : ℕ)
        → laws.Shows w v
        → n ≤ size
        → s.offs + btw ≤ n
        → ((i : ℕ)
            → i < size
            → page * size + i < filesize
            → (i < s.offs) ⊎ (s.offs + btw ≤ i)
            → (i < n) × (get_or (ops.buffer w) i 0 ≡ page_byte v page i))
        → Filled page bytes filesize n content v s (put_after btw content w s)
    put-Filled w n shown le reach old = record {
      shows = put-Shows w shown;
      done_is = refl;
      offs_is = refl;
      reserved_is = refl;
      machine_is = refl;
      n_size = le;
      new_bytes = λ i from to. (omega arith, ground (arith, put_cells w i shown));
      old_bytes = λ i lt inside out.
          let (in_n, same) = old i lt inside out in
          (in_n, ground (arith, put_cells w i shown, out));
    }

    -- The buffer for a page, and how many of its bytes are written out.
    pub fill_buffer_lem :
        (from round : ℕ)
        → page ≡ round + from
        → (n : ℕ) × (s' : Writer W) × (fill_buffer c size max_pages ops
              (v.addr page)
              page
              round
              content
              bytes
              filesize
              s
            ≡ go n s')
          × Filled page bytes filesize n content v s s'
    unfolding fill_buffer is_misaligned put_new
    fill_buffer_lem from round at =
        let (exact, fits) = to_write-written page bytes filesize v s h in
        let btr : ℕ = valid_bytes c size max_pages ops page filesize in
        let n : ℕ = if ltb (s.offs + btw) btr then btr else s.offs + btw in
        let (small, reach) = valid_bytes_lem page filesize h.page_small in
        let (w, e, shown, same) = fill_old_lem page bytes filesize btr v s h small in
        let later : page * size ≡ round * size + from * size =
          ap (λ p. p * size) at ∙ add-mul round from size in
        rw exact
          (elim (Bool-cases
            (ltb 0 s.offs || (ltb (btw + s.offs) size && ltb (round * size + btw) filesize))) [
              | inl part ↦ (
                n,
                put_after btw content w s,
                rw part (rw (e, ◌>>=◌) refl),
                put-Filled w n shown (ground arith) (ground arith) (λ i lt inside out.
                    let low : i < btr = reach i lt inside in (ground arith, same i low)),
              )
              | inr whole ↦ (
                btw,
                put_after btw content s.world s,
                rw whole refl,
                put-Filled s.world btw h.shown (omega (arith, fits)) (ground arith)
                    (λ i lt inside out. absurd (ground (arith, whole, out, later))),
              )
            ])
