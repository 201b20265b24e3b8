-- ===== src/DataIo/Rewriting.antt =====
-- The steps of a round of `writePageData`, one after the other.
use paffs.Prelude.{
  ℕ, true, sym, ◌+◌, ◌-◌, ◌*◌, ◌≤◌, ◌<◌, ◌≡◌, ◌≢◌, refl, ap, ◌∙◌, ◌⊎◌, List, ◌==◌, if◌then◌else◌,
  u16, get_or, arith,
}
use paffs.Types.{ok, Config}
use paffs.Calls.{go, ◌>>=◌}
use paffs.Journal.{data_io_topic}
use paffs.PageState.{PageState, replace}
use paffs.Addr.{combine_address}
use paffs.DataIo.{Addresses, IoOps, place_of}
use paffs.DataIo.Write.{
  Writer, claim, get_old, note_replaced, fill_buffer, write_out, set_new, close_full, write_one,
}
use paffs.DataIo.Content.{
  View, page_byte, with_addr, IsFresh, IsUnused, Wrote, Claimed, IoLaws, data_active,
}
use paffs.DataIo.Filling.{CanFill, Filled, written, fill_buffer_lem}

module _ {W : Type 0} (c : Config) (size max_pages limit : ℕ) (ops : IoOps W)
    (laws : IoLaws c size max_pages limit ops) where
  -- What a round does from the filling of the buffer on: the page is at its new place, with the new
  -- bytes, and every other byte is as it was.
  pub record Rewritten (page bytes filesize neu : ℕ) (content : List ℕ) (v v' : View)
      (s s' : Writer W) : Type 0 where
    pub shows : laws.Shows s'.world v'
    pub done_is : s'.done ≡ s.done + written c size max_pages limit ops laws bytes s
    pub offs_is : s'.offs ≡ 0
    pub machine_is : s'.machine ≡ s.machine
    pub same_target : v'.target ≡ v.target
    pub same_room : v'.room ≡ v.room
    pub same_written : (b : ℕ) → b ≢ neu → v'.written b ≡ v.written b
    pub addr_is : (q : ℕ) → v'.addr q ≡ (if q == page then neu else v.addr q)
    pub new_bytes :
        (i : ℕ)
        → s.offs ≤ i
        → i < s.offs + written c size max_pages limit ops laws bytes s
        → page_byte v' page i ≡ get_or content (s.done + (i - s.offs)) 0
    pub old_bytes :
        (i : ℕ)
        → i < size
        → page * size + i < filesize
        → (i < s.offs) ⊎ (s.offs + written c size max_pages limit ops laws bytes s ≤ i)
        → page_byte v' page i ≡ page_byte v page i
    pub other_pages : (q i : ℕ) → q < limit → q ≢ page → page_byte v' q i ≡ page_byte v q i

  pub note_lem :
      (neu old page : ℕ) (s : Writer W) (m : PageState) (w : W)
      → replace ops.pages max_pages max_pages data_io_topic neu old
          (ops.target_no s.world)
          page
          s.machine
          s.world
        ≡ (ok, (m, w))
      → note_replaced c size max_pages ops neu old page s
        ≡ go tt (record s { world = w; machine = m })
  unfolding note_replaced
  note_lem neu old page s m w e = rw e refl

  pub claim_lem :
      (v : View) (s : Writer W) (found : Claimed c size max_pages limit ops laws.Shows v s.world)
      → claim c size max_pages ops s
        ≡ go
            (combine_address (data_active c size max_pages limit ops found.end) found.page)
            (record s { world = found.end })
  unfolding claim
  claim_lem v s found = rw (found.found, found.is_open, found.free_page) refl

  abbrev room_after : ℕ → ℕ → ℕ → W → Writer W → Writer W
  room_after neu old page w s = record s {
    world = (ops.set_page page neu w).1;
    reserved = if old == 0 then u16 (s.reserved + 1) else s.reserved;
  }

  set_new_lem :
      (page neu old : ℕ) (w : W) (s : Writer W)
      → set_new c size max_pages ops page neu old (record s { world = w })
        ≡ go tt (room_after neu old page w s)
  unfolding set_new
  set_new_lem page neu old w s = refl

  module _ (page bytes filesize n neu : ℕ) (content : List ℕ) (v v1 : View) (s s4 : Writer W)
      (h : CanFill c size max_pages limit ops laws page bytes filesize v s)
      (fresh : IsFresh limit v neu)
      (f : Filled c size max_pages limit ops laws page bytes filesize n content v s s4)
      (wrote : Wrote neu n (ops.buffer s4.world) v v1) (now : Addresses) where
    abbrev moved : View
    moved = record (with_addr page neu v1) { addresses = now }

    -- The page written, put in the place of the old one.
    moved-new : (i : ℕ) → i < n → page_byte moved page i ≡ get_or (ops.buffer s4.world) i 0
    moved-new i lt = ground (arith, wrote.new_bytes i, fresh)

    moved-other : (q i : ℕ) → q < limit → q ≢ page → page_byte moved q i ≡ page_byte v q i
    moved-other q i lt ne = ground (
      arith,
      ne,
      wrote.same_addr q,
      fresh.unused q,
      wrote.old_bytes (v.addr q) i,
      ap (λ a. v1.byte a i) (wrote.same_addr q),
    )

    moved-Rewritten :
        (s' : Writer W)
        → laws.Shows s'.world moved
        → s'.done ≡ s4.done
        → s'.offs ≡ s4.offs
        → s'.machine ≡ s4.machine
        → Rewritten page bytes filesize neu content v moved s s'
    moved-Rewritten s' shown same_done same_offs same_machine = record {
      shows = shown;
      done_is = same_done ∙ f.done_is;
      offs_is = same_offs ∙ f.offs_is;
      machine_is = same_machine ∙ f.machine_is;
      same_target = wrote.same_target;
      same_room = wrote.same_room;
      same_written = wrote.same_written;
      addr_is = λ q. ground (arith, wrote.same_addr q);
      new_bytes = λ i from to. let (low, e) = f.new_bytes i from to in moved-new i low ∙ e;
      old_bytes =
          λ i lt inside out. let (low, e) = f.old_bytes i lt inside out in moved-new i low ∙ e;
      other_pages = moved-other;
    }

  pub get_old_lem :
      (page a : ℕ) (w : W) (s : Writer W)
      → ops.get_page page s.world ≡ (ok, (a, w))
      → get_old c size max_pages ops page s ≡ go a (record s { world = w })
  unfolding get_old
  get_old_lem page a w s e = rw e refl

  write_out_lem :
      (neu n : ℕ) (w : W) (s : Writer W)
      → ops.write_page (place_of c size max_pages ops neu s.world) n s.world ≡ (ok, w)
      → write_out c size max_pages ops neu n s ≡ go tt (record s { world = w })
  unfolding write_out
  write_out_lem neu n w s e = rw e refl

  close_full_lem :
      (w : W) (s : Writer W)
      → ops.manage_full s.world ≡ (ok, w)
      → close_full c size max_pages ops s ≡ go tt (record s { world = w })
  unfolding close_full
  close_full_lem w s e = rw e refl

  -- The steps of a round, one after the other.
  pub run_steps :
      (page from round bytes filesize neu old n : ℕ) (content : List ℕ)
      (s s1 s2 s3 s4 s5 s6 s7 : Writer W)
      → page ≡ round + from
      → claim c size max_pages ops s ≡ go neu s1
      → get_old c size max_pages ops page s1 ≡ go old s2
      → note_replaced c size max_pages ops neu old page s2 ≡ go tt s3
      → fill_buffer c size max_pages ops old page round content bytes filesize s3 ≡ go n s4
      → write_out c size max_pages ops neu n s4 ≡ go tt s5
      → set_new c size max_pages ops page neu old s5 ≡ go tt s6
      → close_full c size max_pages ops s6 ≡ go tt s7
      → write_one c size max_pages ops from round content bytes filesize s ≡ go tt s7
  unfolding write_one
  run_steps page from round bytes filesize neu old n content s s1 s2 s3 s4 s5 s6 s7 at e1 e2 e3 e4
        e5 e6 e7 =
      rw (← at) (
        rw (e1, ◌>>=◌)
          (rw (e2, ◌>>=◌) (rw (e3, ◌>>=◌) (rw (e4, ◌>>=◌) (rw (e5, ◌>>=◌) (rw (e6, ◌>>=◌) e7))))))

  -- A round from the filling of the buffer on.
  pub record Rest (page from round bytes filesize neu : ℕ) (content : List ℕ) (v : View)
      (s3 : Writer W) : Type 0 where
    pub n : ℕ
    pub s4 : Writer W
    pub s5 : Writer W
    pub s6 : Writer W
    pub s7 : Writer W
    pub after : View
    pub filled :
        fill_buffer c size max_pages ops (v.addr page) page round content bytes filesize s3
        ≡ go n s4
    pub out : write_out c size max_pages ops neu n s4 ≡ go tt s5
    pub set_page : set_new c size max_pages ops page neu (v.addr page) s5 ≡ go tt s6
    pub managed : close_full c size max_pages ops s6 ≡ go tt s7
    pub rewritten : Rewritten page bytes filesize neu content v after s3 s7

  pub rest_lem :
      (page from round bytes filesize neu : ℕ) (content : List ℕ) (v : View) (s3 : Writer W)
      → page ≡ round + from
      → CanFill c size max_pages limit ops laws page bytes filesize v s3
      → IsFresh limit v neu
      → v.reserved neu ≡ true
      → Rest page from round bytes filesize neu content v s3
  rest_lem page from round bytes filesize neu content v s3 at h fresh reserved =
      let (n, s4, filled, f) =
        fill_buffer_lem c size max_pages limit ops laws page bytes filesize content v s3 h from
          round at in
      let (w5, v1, out, shown5, wrote) =
        laws.write_page_ok s4.world v neu n f.shows fresh reserved f.n_size in
      let s6 : Writer W = room_after neu (v.addr page) page w5 s4 in
      let now : Addresses = ops.addresses s6.world in
      let unused : IsUnused limit v1 neu =
        λ q lt e. fresh.unused q lt (sym (wrote.same_addr q) ∙ e) in
      let (w7, managed, shown7) =
        laws.manage_full_ok s6.world (record (with_addr page neu v1) { addresses = now })
          (laws.set_page_shows w5 v1 page neu shown5 h.in_file wrote.is_written unused) in
      record {
        n = n;
        s4 = s4;
        s5 = record s4 { world = w5 };
        s6 = s6;
        s7 = record s6 { world = w7 };
        after = record (with_addr page neu v1) { addresses = now };
        filled = filled;
        out = write_out_lem neu n w5 s4 out;
        set_page = set_new_lem page neu (v.addr page) w5 s4;
        managed = close_full_lem w7 s6 managed;
        rewritten =
            moved-Rewritten page bytes filesize n neu content v v1 s3 s4 h fresh f wrote now
              (record s6 { world = w7 }) shown7 refl refl refl;
      }
