-- ===== src/Tests/FlashLaws.antt =====
-- What file data relies on holds of the flash.
use paffs.Prelude.{
  ℕ, ◌-◌, ◌≤◌, ◌<◌, ◌≡◌, ◌≢◌, refl, sym, ap, subst, ◌∙◌, ◌⊎◌, inl, inr, true, false, Bool-cases,
  ℕ_discrete, ==_iff, ==-ne, lt→ltb, set, length-set, get_or-set, ltb, ◌==◌, if◌then◌else◌, get_or,
  arith,
}
use paffs.Types.{ok, used, dirty, Inode}
use paffs.Superblock
use paffs.Superblock.{Superblock}
use paffs.Addr.{combine_address}
use paffs.DataIo.{Addresses}
use paffs.DataIo.Content.{
  View, with_addr, with_reserved, without, IsUnused, IsFresh, Wrote, Claimed, IoLaws,
}
use paffs.Tests.Flash.{
  Shows, Flash, config, mark, ops, place_lem, page_cell, cells, place, combine_lem, with_buffer,
  is_place, sane_written, Shows-placed,
}

pub Shows-claim :
    (w : Flash) (v : View) → Shows w v → 0 < v.room → Claimed config 4 8 11 ops Shows v w
unfolding Superblock.get_active_area Superblock.get_status
Shows-claim w v h room =
    let at : combine_address 1 (w.next - 65536) ≡ w.next = combine_lem w.next h.from h.to in
    let some : ltb w.next 131071 ≡ true = ground (arith, h.room) in
    let fresh : v.written w.next ≡ false = elim (Bool-cases (v.written w.next)) [
      | inl was ↦ absurd (omega (arith, (h.written w.next was).1))
      | inr never ↦ never
    ] in
    record {
      mid = w;
      page = w.next - 65536;
      end = w;
      found = rw some refl;
      is_open = refl;
      free_page = refl;
      shows = rw at (record {
        target = h.target;
        addresses = h.addresses;
        addr = h.addr;
        byte = h.byte;
        written = h.written;
        issued = h.issued;
        free = λ a e. (==_iff a w.next).0 e;
        reserved = h.reserved;
        room = h.room;
        from = h.from;
        to = h.to;
        length_is = h.length_is;
        direct_length = h.direct_length;
        clean = h.clean;
        placed = h.placed;
        distinct = h.distinct;
      });
      fresh = rw at (record {
        nonzero = λ e. absurd (omega (arith, h.from));
        unwritten = fresh;
        unused = λ p lt e.
            let was : v.written (v.addr p) ≡ true =
              Shows-placed w v p h lt (λ z. absurd (omega (arith, e, h.from))) in
            absurd (omega (arith, (h.written (v.addr p) was).1, e));
      });
    }

pub Shows-used :
    (w : Flash) (v : View) (a : ℕ)
    → Shows w v
    → v.free a ≡ true
    → 0 < v.room
    → Shows (mark a used w) (with_reserved a v)
Shows-used w v a h free room =
    let at : a ≡ w.next = h.free a free in
    let more : w.next < 131071 = omega (arith, h.room) in
    rw ((==_iff a w.next).1 at) (record {
      target = h.target;
      addresses = h.addresses;
      addr = h.addr;
      byte = h.byte;
      written = λ b was. let (low, high, alive) = h.written b was in (low, omega arith, alive);
      issued = h.issued;
      free = λ b e. absurd (ground arith);
      reserved = λ b e.
          let same : b ≡ a = (==_iff b a).0 e in
          let (empty, alive) = h.clean room b (omega arith) in
          (omega (arith, h.from), omega arith, empty, alive);
      room = omega (arith, h.room);
      from = omega (arith, h.from);
      to = omega arith;
      length_is = h.length_is;
      direct_length = h.direct_length;
      clean = λ some b low. h.clean room b (omega arith);
      placed = h.placed;
      distinct = h.distinct;
    })

pub Shows-dirty :
    (w : Flash) (v : View) (a : ℕ)
    → Shows w v
    → IsUnused 11 v a
    → Shows (mark a dirty w) (without a v)
Shows-dirty w v a h unused = record {
  target = h.target;
  addresses = h.addresses;
  addr = h.addr;
  byte = h.byte;
  written = λ b was. elim (ℕ_discrete b a) [
    | yes e ↦ absurd (ground (arith, was, e))
    | no ne ↦
        let (low, high, alive) = h.written b (ground (arith, was, ne)) in
        (low, high, ground (arith, ne, alive))
  ];
  issued = λ b was. h.issued b (ground (arith, was));
  free = λ b e. absurd (ground arith);
  reserved = λ b e. absurd (ground arith);
  room = omega arith;
  from = h.from;
  to = h.to;
  length_is = h.length_is;
  direct_length = h.direct_length;
  clean = λ some. absurd (omega arith);
  placed = λ p low ne.
      let away : get_or w.direct p 0 ≢ a = λ e. unused p low (h.addr p ∙ e) in
      ground (arith, away, h.placed p low ne);
  distinct = h.distinct;
}

pub Shows-write :
    (w : Flash) (v : View) (a n : ℕ)
    → Shows w v
    → IsFresh 11 v a
    → v.reserved a ≡ true
    → n ≤ 4
    → (w' : Flash) × (v' : View) × (ops.write_page (place a w) n w ≡ (ok, w'))
      × Shows w' v'
      × Wrote a n (ops.buffer w) v v'
Shows-write w v a n h fresh mine le =
    let (low, high, empty, alive) = h.reserved a mine in
    let here : place a w ≡ a = place_lem a (omega arith) (omega (arith, h.to)) in
    let below : ltb a w.next ≡ true = ground arith in
    let w' : Flash = record w {
      byte = λ b i. if b == a then get_or w.buffer i 0 else w.byte b i;
      full = λ b. if b == a then true else w.full b;
    } in
    let v' : View = record v {
      byte = w'.byte;
      written = λ b. if b == a then true else v.written b;
      issued = λ b. if b == a then true else v.issued b;
      free = λ b. false;
      reserved = λ b. false;
    } in
    (
      w',
      v',
      rw (here, empty, below) refl,
      record {
        target = h.target;
        addresses = h.addresses;
        addr = h.addr;
        byte = λ b i. refl;
        written = λ b was. elim (ℕ_discrete b a) [
          | yes e ↦ rw e (omega arith, high, alive)
          | no ne ↦ h.written b (ground (arith, was, ne))
        ];
        issued = λ b was. elim (ℕ_discrete b a) [
          | yes e ↦ ground (arith, e)
          | no ne ↦ ground (arith, ne, h.issued b (ground (arith, was, ne)))
        ];
        free = λ b e. absurd (ground arith);
        reserved = λ b e. absurd (ground arith);
        room = h.room;
        from = h.from;
        to = h.to;
        length_is = h.length_is;
        direct_length = h.direct_length;
        clean = λ some b from.
            let (blank, live) = h.clean some b from in (ground (arith, blank, high, from), live);
        placed = λ p lt ne. ground (arith, h.placed p lt ne);
        distinct = h.distinct;
      },
      record {
        same_target = refl;
        same_addr = λ p. refl;
        is_written = ground arith;
        same_written = λ b ne. ground (arith, ne);
        new_bytes = λ i lt. ground arith;
        old_bytes = λ b i ne. ground (arith, h.byte b i, ne);
        same_room = refl;
      },
    )

abbrev pub moved : ℕ → ℕ → Flash → View → View
moved p a w v = record (with_addr p a v) { addresses = ops.addresses (ops.set_page p a w).1 }

direct_at :
    (w : Flash) (v : View) (p q a : ℕ)
    → Shows w v
    → p < 11
    → get_or (set w.direct p a) q 0 ≡ (if p == q then a else get_or w.direct q 0)
direct_at w v p q a h low = get_or-set 0 w.direct p q a (omega (arith, h.direct_length))

pub Shows-set :
    (w : Flash) (v : View) (p a : ℕ)
    → Shows w v
    → p < 11
    → (a ≡ 0) ⊎ ((v.written a ≡ true) × IsUnused 11 v a)
    → Shows (ops.set_page p a w).1 (moved p a w v)
Shows-set w v p a h low new = record {
  target = h.target;
  addresses = refl;
  addr = λ q. ground (arith, h.addr q, direct_at w v p q a h low);
  byte = h.byte;
  written = h.written;
  issued = h.issued;
  free = h.free;
  reserved = h.reserved;
  room = h.room;
  from = h.from;
  to = h.to;
  length_is = h.length_is;
  direct_length = length-set w.direct p a ∙ h.direct_length;
  clean = h.clean;
  placed = λ q lt. rw (direct_at w v p q a h low) (elim (ℕ_discrete p q) [
    | yes e ↦
        rw ((==_iff p q).1 e)
          (λ ne. elim new [ inl none_set ↦ absurd (ne none_set) | inr (was, unused) ↦ was ])
    | no away ↦ rw (==-ne p q away) (h.placed q lt)
  ]);
  distinct = λ q r q_low r_low.
      rw (direct_at w v p q a h low, direct_at w v p r a h low)
        (elim (ℕ_discrete p q) [
          | yes e ↦ rw ((==_iff p q).1 e) (λ ne. elim (ℕ_discrete p r) [
            | yes f ↦ λ same. sym e ∙ f
            | no away ↦ rw (==-ne p r away) (λ same. elim new [
              | inl none_set ↦ absurd (ne none_set)
              | inr (was, unused) ↦ absurd (unused r r_low (h.addr r ∙ sym same))
            ])
          ])
          | no far ↦ rw (==-ne p q far) (λ ne. elim (ℕ_discrete p r) [
            | yes f ↦ rw ((==_iff p r).1 f) (λ same. elim new [
              | inl none_set ↦ absurd (ne (same ∙ none_set))
              | inr (was, unused) ↦ absurd (unused q q_low (h.addr q ∙ same))
            ])
            | no away ↦ rw (==-ne p r away) (h.distinct q r q_low r_low ne)
          ])
        ]);
}

unfoldable pub laws : IoLaws config 4 8 11 ops
laws = record {
  Shows = Shows;
  writable = λ w v h. refl;
  buffer_length = λ w v h. h.length_is;
  sane = sane_written;
  addr_written = λ w v p h lt ne. Shows-placed w v p h lt ne;
  addr_distinct = λ w v p q h p_low q_low ne same.
      h.distinct p q p_low q_low (λ e. ne (h.addr p ∙ e)) (sym (h.addr p) ∙ same ∙ h.addr q);
  addresses_lem = λ w v h. sym h.addresses;
  get_page_ok = λ w v p h lt. (w, rw (lt→ltb p 11 lt) (ap (λ a. (ok, (a, w))) (sym (h.addr p))), h);
  read_page_ok = λ w v a n h written le. (
    record w { buffer = cells a w },
    rw (is_place w v a h written) refl,
    with_buffer w v (cells a w) h refl,
    λ i lt. page_cell (w.byte a) i (omega arith) ∙ sym (h.byte a i),
  );
  put_buffer_shows = λ w v b h len. with_buffer w v b h len;
  put_buffer_lem = λ w b. refl;
  claim_ok = Shows-claim;
  write_page_ok = Shows-write;
  set_page_shows = λ w v p a h lt written unused. Shows-set w v p a h lt (inr (written, unused));
  manage_full_ok = λ w v h. (w, refl, h);
  event_shows = λ w v e h. h;
  used_shows = λ w v a h fresh free room. (mark a used w, refl, Shows-used w v a h free room);
  written_issued = λ w v a h was. h.issued a was;
  dirty_shows = λ w v a h issued unused. Shows-dirty w v a h unused;
  update_ok = λ w v n h number has. (w, rw ((==_iff n.no 7).1 (number ∙ h.target)) refl, h);
  set_valid_shows = λ w v h. h;
  retarget_ok = λ w v n h number has.
      let same : w.direct ≡ n.direct =
        ap Addresses.direct (sym h.addresses) ∙ ap Inode.direct has in
      (record w { direct = n.direct }, refl, subst (λ d. Shows (record w { direct = d }) v) same h);
}
