-- ===== src/DataIo/Ranges.antt =====
-- `writePageData`: a range of bytes is written, page by page.
use paffs.Prelude.{
  ℕ, zero, suc, ◌+◌, ◌-◌, ◌*◌, ◌≤◌, ◌<◌, ◌≡◌, refl, ap, subst, ◌∙◌, ◌⊎◌, inl, List, ℕ_discrete,
  get_or, arith,
}
use paffs.Types.{Config}
use paffs.Calls.{go, bind-go}
use paffs.DataIo.{IoOps}
use paffs.DataIo.Write.{Writer, write_one, write_pages}
use paffs.DataIo.Content.{View, page_byte, IoLaws}
use paffs.DataIo.Marks.{IsOld}
use paffs.DataIo.Filling.{CanFill, written}
use paffs.DataIo.Writing.{Replaced, write_one_lem}

page_le : (p q size : ℕ) → p < q → p * size + size ≤ q * size
page_le p q size h = grind arith

module _ {W : Type 0} (c : Config) (size max_pages limit : ℕ) (ops : IoOps W)
    (laws : IoLaws c size max_pages limit ops) where
  -- `rounds` pages are written from `page` on: the bytes of the range are new, every other byte of
  -- the file is the old one, and no other page is touched.
  pub record Stored (rounds page bytes filesize : ℕ) (content : List ℕ) (v v' : View)
      (s s' : Writer W) : Type 0 where
    pub shows : laws.Shows s'.world v'
    pub old_is : IsOld c size max_pages limit ops laws s'.machine v'
    pub done_is : s'.done ≡ bytes
    pub same_target : v'.target ≡ v.target
    pub new_bytes :
        (q i : ℕ)
        → q < limit
        → i < size
        → page * size + s.offs ≤ q * size + i
        → q * size + i < page * size + s.offs + (bytes - s.done)
        → page_byte v' q i ≡ get_or content (q * size + i + s.done - (page * size + s.offs)) 0
    pub old_bytes :
        (q i : ℕ)
        → q < limit
        → i < size
        → q * size + i < filesize
        → (q * size + i < page * size + s.offs)
          ⊎ (page * size + s.offs + (bytes - s.done) ≤ q * size + i)
        → page_byte v' q i ≡ page_byte v q i
    pub other_pages :
        (q i : ℕ)
        → q < limit
        → (q < page) ⊎ (page + rounds ≤ q)
        → page_byte v' q i ≡ page_byte v q i

  pub record CanStore (rounds page bytes : ℕ) (v : View) (s : Writer W) : Type 0 where
    pub shown : laws.Shows s.world v
    pub roomy : rounds ≤ v.room
    pub old_is : IsOld c size max_pages limit ops laws s.machine v
    pub in_list : s.machine.high_water + rounds ≤ max_pages
    pub in_file : page + rounds ≤ limit
    pub nonempty : 0 < size
    pub offset : s.offs < size
    pub so_far : s.done ≤ bytes
    pub small : bytes + size < 4294967296
    pub pages_small : (page + rounds) * size < 4294967296
    pub enough : bytes + s.offs ≤ rounds * size + s.done

  -- The page of a round.
  CanStore-CanFill :
      (rounds page bytes filesize : ℕ) (v : View) (s : Writer W)
      → CanStore (suc rounds) page bytes v s
      → CanFill c size max_pages limit ops laws page bytes filesize v s
  CanStore-CanFill rounds page bytes filesize v s h =
      let more : (page + suc rounds) * size ≡ (page + 1) * size + rounds * size = grind arith in
      record {
        shown = h.shown;
        in_file = omega arith;
        nonempty = h.nonempty;
        offset = h.offset;
        so_far = h.so_far;
        small = h.small;
        page_small = omega (arith, more, h.pages_small);
      }

  abbrev next_done : ℕ → Writer W → ℕ
  next_done bytes s = written c size max_pages limit ops laws bytes s

  CanStore-next :
      (rounds page bytes filesize : ℕ) (content : List ℕ) (v v1 : View) (s s1 : Writer W)
      → CanStore (suc rounds) page bytes v s
      → Replaced c size max_pages limit ops laws page bytes filesize content v v1 s s1
      → CanStore rounds (page + 1) bytes v1 s1
  CanStore-next rounds page bytes filesize content v v1 s s1 h r =
      let left : suc rounds * size ≡ size + rounds * size = grind arith in
      let over : (page + suc rounds) * size ≡ (page + 1 + rounds) * size =
        ap (λ n. n * size) (omega arith) in
      record {
        shown = r.shows;
        roomy = omega (arith, h.roomy, r.room_left);
        old_is = r.old_is;
        in_list = omega (arith, h.in_list, r.one_more);
        in_file = omega arith;
        nonempty = h.nonempty;
        offset = ground (arith, r.offs_is, h);
        so_far = ground (arith, r.done_is, h);
        small = h.small;
        pages_small = omega (arith, over, h.pages_small);
        enough = ground (arith, r.offs_is, r.done_is, left, h);
      }

  -- The first page, and the others.
  module _ (rounds page bytes filesize : ℕ) (content : List ℕ) (v v1 v' : View) (s s1 s' : Writer W)
      (h : CanStore (suc rounds) page bytes v s)
      (r : Replaced c size max_pages limit ops laws page bytes filesize content v v1 s s1)
      (t : Stored rounds (page + 1) bytes filesize content v1 v' s1 s') where
    next_start : (page + 1) * size ≡ page * size + size
    next_start = grind arith

    joined_new :
        (q i : ℕ)
        → q < limit
        → i < size
        → page * size + s.offs ≤ q * size + i
        → q * size + i < page * size + s.offs + (bytes - s.done)
        → page_byte v' q i ≡ get_or content (q * size + i + s.done - (page * size + s.offs)) 0
    joined_new q i lt small from to = elim (ℕ_discrete q page) [
      | yes e ↦
          let same : q * size ≡ page * size = ap (λ n. n * size) e in
          let place : s.done + (i - s.offs) ≡ q * size + i + s.done - (page * size + s.offs) =
            omega (arith, same, from) in
          let now : page_byte v1 page i ≡ get_or content (s.done + (i - s.offs)) 0 =
            r.new_bytes i (omega (arith, same)) (ground (arith, same)) in
          t.other_pages q i lt (inl (omega arith)) ∙ rw (e) now ∙ ap (λ n. get_or content n 0) place
      | no ne ↦
          let away : (q < page) ⊎ (page < q) = ground (arith, ne) in
          let below : q < page → q * size + size ≤ page * size = page_le q page size in
          let above : page < q → page * size + size ≤ q * size = page_le page q size in
          let place : q * size + i + s1.done - ((page + 1) * size + s1.offs)
              ≡ q * size + i + s.done - (page * size + s.offs) =
            ground (arith, away, below, above, next_start, r.done_is, r.offs_is, h) in
          t.new_bytes q i lt small
            (ground (arith, away, below, above, next_start, r.done_is, r.offs_is, h))
            (ground (arith, away, below, above, next_start, r.done_is, r.offs_is, h))
          ∙ ap (λ n. get_or content n 0) place
    ]

    joined_old :
        (q i : ℕ)
        → q < limit
        → i < size
        → q * size + i < filesize
        → (q * size + i < page * size + s.offs)
          ⊎ (page * size + s.offs + (bytes - s.done) ≤ q * size + i)
        → page_byte v' q i ≡ page_byte v q i
    joined_old q i lt small inside out = elim (ℕ_discrete q page) [
      | yes e ↦
          let same : q * size ≡ page * size = ap (λ n. n * size) e in
          let kept : page_byte v1 page i ≡ page_byte v page i =
            r.old_bytes i small (omega (arith, same, inside)) (ground (arith, same, out, h)) in
          t.other_pages q i lt (inl (omega arith)) ∙ rw e kept
      | no ne ↦
          let away : (q < page) ⊎ (page < q) = ground (arith, ne) in
          let below : q < page → q * size + size ≤ page * size = page_le q page size in
          let above : page < q → page * size + size ≤ q * size = page_le page q size in
          t.old_bytes q i lt small inside
            (ground (arith, away, below, above, next_start, r.done_is, r.offs_is, h, out))
          ∙ r.other_pages q i lt ne
    ]

    joined : Stored (suc rounds) page bytes filesize content v v' s s'
    joined = record {
      shows = t.shows;
      old_is = t.old_is;
      done_is = t.done_is;
      same_target = t.same_target ∙ r.same_target;
      new_bytes = joined_new;
      old_bytes = joined_old;
      other_pages = λ q i lt out.
          t.other_pages q i lt (ground (arith, out)) ∙ r.other_pages q i lt (ground (arith, out));
    }

  pub write_pages_lem :
      (rounds from round bytes filesize : ℕ) (content : List ℕ) (v : View) (s : Writer W)
      → CanStore rounds (round + from) bytes v s
      → (s' : Writer W) × (v' : View) × (write_pages c size max_pages ops rounds from round content
            bytes filesize s
          ≡ go tt s')
        × Stored rounds (round + from) bytes filesize content v v' s s'
  unfolding write_pages
  write_pages_lem zero from round bytes filesize content v s h = (
    s,
    v,
    refl,
    record {
      shows = h.shown;
      old_is = h.old_is;
      done_is = omega arith;
      same_target = refl;
      new_bytes = λ q i lt small at to. absurd (omega arith);
      old_bytes = λ q i lt small inside out. refl;
      other_pages = λ q i lt out. refl;
    },
  )
  write_pages_lem (suc rounds) from round bytes filesize content v s h =
      let page : ℕ = round + from in
      let (s1, v1, e1, r) =
        write_one_lem c size max_pages limit ops laws page from round bytes filesize content v s
          refl (CanStore-CanFill rounds page bytes filesize v s h) (omega (arith, h.roomy)) h.old_is
          (omega (arith, h.in_list)) in
      let shift : round + 1 + from ≡ page + 1 = omega arith in
      let h1 : CanStore rounds (round + 1 + from) bytes v1 s1 =
        rw shift (CanStore-next rounds page bytes filesize content v v1 s s1 h r) in
      let (s', v', e', t) =
        write_pages_lem rounds from (round + 1) bytes filesize content v1 s1 h1 in
      (
        s',
        v',
        bind-go (write_one c size max_pages ops from round content bytes filesize)
              (λ _. write_pages c size max_pages ops rounds from (round + 1) content bytes filesize)
              e1
            ∙ e',
        joined rounds page bytes filesize content v v1 v' s s1 s' h r
            (subst (λ p. Stored rounds p bytes filesize content v1 v' s1 s') shift t),
      )
