-- ===== src/DataIo/Writing.antt =====
-- One round of `writePageData`: a page of the file is written anew, to a fresh place.
use paffs.Prelude.{
  ℕ, ℕ_discrete, Bool, sym, suc, ◌+◌, ◌-◌, ◌*◌, ◌≤◌, ◌<◌, ◌≡◌, ◌≢◌, refl, ap, ◌∙◌, ◌⊎◌, List, ◌==◌,
  if◌then◌else◌, get_or, arith,
}
use paffs.Types.{Config}
use paffs.Calls.{go}
use paffs.PageState.{PageState}
use paffs.Addr.{combine_address}
use paffs.DataIo.{IoOps}
use paffs.DataIo.Write.{Writer, write_one}
use paffs.DataIo.Content.{View, page_byte, IsFresh, with_reserved, Claimed, IoLaws, data_active}
use paffs.DataIo.Marks.{replace-Shows, IsOld, IsOld-keep, IsOld-grow, Grew}
use paffs.DataIo.Filling.{CanFill, written}
use paffs.DataIo.Rewriting.{Rewritten, note_lem, claim_lem, get_old_lem, run_steps, Rest, rest_lem}

module _ {W : Type 0} (c : Config) (size max_pages limit : ℕ) (ops : IoOps W)
    (laws : IoLaws c size max_pages limit ops) where
  -- What a round leaves of the file: the new bytes, and every other byte that the file had.
  pub record Replaced (page bytes filesize : ℕ) (content : List ℕ) (v v' : View) (s s' : Writer W)
      : Type 0 where
    pub shows : laws.Shows s'.world v'
    pub done_is : s'.done ≡ s.done + written c size max_pages limit ops laws bytes s
    pub offs_is : s'.offs ≡ 0
    pub same_target : v'.target ≡ v.target
    pub room_left : v.room ≤ suc v'.room
    pub old_is : IsOld c size max_pages limit ops laws s'.machine v'
    pub one_more : s'.machine.high_water ≡ suc s.machine.high_water
    pub new_bytes :
        (i : ℕ)
        → s.offs ≤ i
        → i < s.offs + written c size max_pages limit ops laws bytes s
        → page_byte v' page i ≡ get_or content (s.done + (i - s.offs)) 0
    pub old_bytes :
        (i : ℕ)
        → i < size
        → page * size + i < filesize
        → (i < s.offs) ⊎ (s.offs + written c size max_pages limit ops laws bytes s ≤ i)
        → page_byte v' page i ≡ page_byte v page i
    pub other_pages : (q i : ℕ) → q < limit → q ≢ page → page_byte v' q i ≡ page_byte v q i

  -- The old page of a round is not in the file any more.
  Rewritten-IsOld :
      (page bytes filesize neu : ℕ) (content : List ℕ) (v vr after : View) (w : W) (m : PageState)
      (s3 s7 : Writer W)
      → laws.Shows w v
      → page < limit
      → IsFresh limit v neu
      → vr.addr ≡ v.addr
      → vr.written ≡ v.written
      → IsOld c size max_pages limit ops laws m v
      → m.high_water < max_pages
      → Grew (v.addr page) m s3.machine
      → Rewritten c size max_pages limit ops laws page bytes filesize neu content vr after s3 s7
      → IsOld c size max_pages limit ops laws s7.machine after
  Rewritten-IsOld page bytes filesize neu content v vr after w m s3 s7 shown low fresh at_addr
        at_written h room grew r =
      let addr_is : (q : ℕ) → after.addr q ≡ (if q == page then neu else v.addr q) =
        λ q. r.addr_is q ∙ ap (λ (f : ℕ → ℕ). if q == page then neu else f q) at_addr in
      let written_is : (b : ℕ) → b ≢ neu → after.written b ≡ v.written b =
        λ b ne. r.same_written b ne ∙ ap (λ (f : ℕ → Bool). f b) at_written in
      rw r.machine_is (
        IsOld-grow c size max_pages limit ops laws (v.addr page) m s3.machine v after h grew room
          (λ ne. (
            written_is (v.addr page) (fresh.unused page low)
                ∙ laws.addr_written w v page shown low ne,
            λ q lt e. elim (ℕ_discrete q page) [
              | yes eq ↦ absurd (ground (arith, addr_is q, e, eq, fresh.unused page low))
              | no away ↦
                  let same : v.addr q ≡ v.addr page = ground (arith, addr_is q, e, away) in
                  away (sym (laws.addr_distinct w v page q shown low lt ne (sym same)))
            ],
          ))
          (λ o nonzero was out. (
            written_is o (λ e. absurd (cc (ap v.written e, was, fresh.unwritten))) ∙ was,
            λ q lt e. elim (ℕ_discrete q page) [
              | yes eq ↦
                  let same : o ≡ neu = ground (arith, addr_is q, e, eq) in
                  absurd (cc (ap v.written same, was, fresh.unwritten))
              | no away ↦ out q lt (ground (arith, addr_is q, e, away))
            ],
          )))

  -- While a page can be written, a round answers with the page replaced.
  pub write_one_lem :
      (page from round bytes filesize : ℕ) (content : List ℕ) (v : View) (s : Writer W)
      → page ≡ round + from
      → CanFill c size max_pages limit ops laws page bytes filesize v s
      → 0 < v.room
      → IsOld c size max_pages limit ops laws s.machine v
      → s.machine.high_water < max_pages
      → (s' : Writer W) × (v' : View) × (write_one c size max_pages ops from round content bytes
            filesize s
          ≡ go tt s')
        × Replaced page bytes filesize content v v' s s'
  write_one_lem page from round bytes filesize content v s at h room old more =
      let claimed : Claimed c size max_pages limit ops laws.Shows v s.world =
        laws.claim_ok s.world v h.shown room in
      let neu : ℕ =
        combine_address (data_active c size max_pages limit ops claimed.end) claimed.page in
      let given : View = record v { free = λ b. b == neu } in
      let vr : View = with_reserved neu given in
      let s1 : Writer W = record s { world = claimed.end } in
      let (w2, got, shown2) = laws.get_page_ok s1.world given page claimed.shows h.in_file in
      let s2 : Writer W = record s { world = w2 } in
      let fresh : IsFresh limit given neu = record {
        nonzero = claimed.fresh.nonzero;
        unwritten = claimed.fresh.unwritten;
        unused = claimed.fresh.unused;
      } in
      let old' : IsOld c size max_pages limit ops laws s.machine given =
        IsOld-keep c size max_pages limit ops laws s.machine v given old
          (λ o nonzero w u. (w, u)) in
      let (m3, w3, noted, shown3, grew) =
        replace-Shows c size max_pages limit ops laws neu (v.addr page) (ops.target_no w2) page
          s.machine w2 given shown2 fresh (ground arith) room old' more in
      let s3 : Writer W = record s { world = w3; machine = m3 } in
      let h3 : CanFill c size max_pages limit ops laws page bytes filesize vr s3 = record {
        shown = shown3;
        in_file = h.in_file;
        nonempty = h.nonempty;
        offset = h.offset;
        so_far = h.so_far;
        small = h.small;
        page_small = h.page_small;
      } in
      let fresh3 : IsFresh limit vr neu = record {
        nonzero = fresh.nonzero;
        unwritten = fresh.unwritten;
        unused = fresh.unused;
      } in
      let r : Rest c size max_pages limit ops laws page from round bytes filesize neu content vr
          s3 =
        rest_lem c size max_pages limit ops laws page from round bytes filesize neu content vr s3 at
          h3 fresh3 (ground arith) in
      let d : Rewritten c size max_pages limit ops laws page bytes filesize neu content vr r.after
          s3 r.s7 =
        r.rewritten in
      (
        r.s7,
        r.after,
        run_steps c size max_pages limit ops laws page from round bytes filesize neu (v.addr page)
            r.n content s s1 s2 s3 r.s4 r.s5 r.s6 r.s7 at
            (claim_lem c size max_pages limit ops laws v s claimed)
            (get_old_lem c size max_pages limit ops laws page (v.addr page) w2 s1 got)
            (note_lem c size max_pages limit ops laws neu (v.addr page) page s2 m3 w3 noted)
            r.filled r.out r.set_page r.managed,
        record {
          shows = d.shows;
          done_is = d.done_is;
          offs_is = d.offs_is;
          same_target = d.same_target;
          room_left = omega (arith, d.same_room);
          old_is =
              Rewritten-IsOld page bytes filesize neu content v vr r.after s.world s.machine s3 r.s7
                h.shown h.in_file claimed.fresh refl refl old more grew d;
          one_more = ap PageState.high_water d.machine_is ∙ grew.high;
          new_bytes = d.new_bytes;
          old_bytes = d.old_bytes;
          other_pages = d.other_pages;
        },
      )
