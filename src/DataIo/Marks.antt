-- ===== src/DataIo/Marks.antt =====
-- The page state machine and what a file shows: the old pages it holds are no longer in the file.
use paffs.Prelude.{
  ℕ, zero, suc, ◌+◌, ◌/◌, ◌%◌, ◌≤◌, ◌<◌, ◌≡◌, ◌≢◌, refl, ap, ◌∙◌, ◌⊎◌, inl, inr, true, false, List,
  ◌==◌, ==_iff, ==-ne, ℕ_discrete, Bool-cases, if◌then◌else◌, if-elim, length, length-set, get_or,
  get_or-set, arith,
}
use paffs.Types.{Result, ok, low_mem, Config}
use paffs.Journal.{data_io_topic, pagestate, invalidate_old_pages}
use paffs.PageState.{
  PageState, replace, invalidate, dirty_from, any_from, store_pages, store_position, event_of,
  with_position,
}
use paffs.DataIo.{IoOps}
use paffs.DataIo.Content.{View, file_byte, IoLaws, IsFresh, IsUnused, with_reserved, without}

-- The same file, whatever the pages outside of it are.
pub record SameFile (v v' : View) : Type 0 where
  pub same_target : v'.target ≡ v.target
  pub same_addresses : v'.addresses ≡ v.addresses
  pub same_addr : (page : ℕ) → v'.addr page ≡ v.addr page
  pub same_byte : (a i : ℕ) → v'.byte a i ≡ v.byte a i

pub SameFile-file_byte :
    (size : ℕ) (v v' : View) (k : ℕ) → SameFile v v' → file_byte size v' k ≡ file_byte size v k
unfolding file_byte
SameFile-file_byte size v v' k same = ground (
  arith,
  same.same_addr (k / size),
  same.same_byte (v.addr (k / size)) (k % size),
  ap (λ a. v'.byte a (k % size)) (same.same_addr (k / size)),
)

-- One more old page than before.
pub record Grew (old : ℕ) (m m' : PageState) : Type 0 where
  pub high : m'.high_water ≡ suc m.high_water
  pub same_length : length m'.old_pages ≡ length m.old_pages
  pub kept : (i : ℕ) → i < m.high_water → get_or m'.old_pages i 0 ≡ get_or m.old_pages i 0
  pub last : get_or m'.old_pages m.high_water 0 ≡ old

module _ {W : Type 0} (c : Config) (size max_pages limit : ℕ) (ops : IoOps W)
    (laws : IoLaws c size max_pages limit ops) where
  -- The old pages in the machine were written, and are not in the file.
  pub record IsOld (m : PageState) (v : View) : Type 0 where
    pub long : length m.old_pages ≡ max_pages
    pub small : max_pages < 65536
    pub in_list : m.high_water ≤ max_pages
    pub old :
        (i : ℕ)
        → i < m.high_water
        → get_or m.old_pages i 0 ≢ 0
        → (v.written (get_or m.old_pages i 0) ≡ true) × IsUnused limit v (get_or m.old_pages i 0)

  -- A machine without pages.
  pub record IsIdle (m : PageState) : Type 0 where
    pub long : length m.old_pages ≡ max_pages
    pub small : max_pages < 65536
    pub none_held : m.high_water ≡ 0

  pub IsIdle-IsOld : (m : PageState) (v : View) → IsIdle m → IsOld m v
  IsIdle-IsOld m v h = record {
    long = h.long;
    small = h.small;
    in_list = omega (arith, h.none_held);
    old = λ i low. absurd (omega (arith, h.none_held));
  }

  -- What a step does to pages that are given up already.
  abbrev pub KeepsOld : View → View → Type 0
  KeepsOld v v' =
      (o : ℕ)
      → o ≢ 0
      → v.written o ≡ true
      → IsUnused limit v o
      → (v'.written o ≡ true) × IsUnused limit v' o

  pub IsOld-keep : (m : PageState) (v v' : View) → IsOld m v → KeepsOld v v' → IsOld m v'
  IsOld-keep m v v' h keeps = record {
    long = h.long;
    small = h.small;
    in_list = h.in_list;
    old = λ i low ne. let (w, u) = h.old i low ne in keeps _ ne w u;
  }

  pub IsOld-grow :
      (old : ℕ) (m m' : PageState) (v v' : View)
      → IsOld m v
      → Grew old m m'
      → m.high_water < max_pages
      → (old ≢ 0 → (v'.written old ≡ true) × IsUnused limit v' old)
      → KeepsOld v v'
      → IsOld m' v'
  IsOld-grow old m m' v v' h g room new keeps = record {
    long = g.same_length ∙ h.long;
    small = h.small;
    in_list = omega (arith, g.high);
    old = λ i low. elim (ℕ_discrete i m.high_water) [
      | yes e ↦ rw (e, g.last) new
      | no ne ↦
          let inside : i < m.high_water = omega (arith, ne, g.high) in
          rw (g.kept i inside) (λ some. let (w, u) = h.old i inside some in keeps _ some w u)
    ];
  }

  abbrev stored : ℕ → ℕ → ℕ → PageState → PageState
  stored neu old page m = store_pages ops.pages max_pages max_pages data_io_topic neu old (
      if with_position ops.pages max_pages max_pages data_io_topic
      then store_position ops.pages max_pages max_pages data_io_topic page m
      else m)

  abbrev logged : ℕ → ℕ → ℕ → ℕ → W → W
  logged neu old inode page w =
      ops.pages.add_event
        (pagestate data_io_topic
          (event_of ops.pages max_pages max_pages data_io_topic neu old inode page))
        w

  stored-Grew :
      (neu old page : ℕ) (m : PageState) (v : View)
      → IsOld m v
      → m.high_water < max_pages
      → Grew old m (stored neu old page m)
  stored-Grew neu old page m v h room =
      let low : m.high_water < length m.old_pages = omega (arith, h.long) in
      let both : (max_pages == max_pages) ≡ true = ground arith in
      rw both (record {
        high = omega (arith, h.small);
        same_length = length-set m.old_pages m.high_water old;
        kept = λ i less. get_or-set 0 m.old_pages m.high_water i old low ∙ ground arith;
        last = get_or-set 0 m.old_pages m.high_water m.high_water old low ∙ ground arith;
      })

  -- A page that was claimed replaces another one.
  pub replace-Shows :
      (neu old inode page : ℕ) (m : PageState) (w : W) (v : View)
      → laws.Shows w v
      → IsFresh limit v neu
      → v.free neu ≡ true
      → 0 < v.room
      → IsOld m v
      → m.high_water < max_pages
      → (m' : PageState) × (w' : W) × (replace ops.pages max_pages max_pages data_io_topic neu old
            inode page m w
          ≡ (ok, (m', w')))
        × laws.Shows w' (with_reserved neu v)
        × Grew old m m'
  unfolding replace
  replace-Shows neu old inode page m w v shown fresh free room h more =
      let (w', used, shown') =
        laws.used_shows (logged neu old inode page w) v neu (laws.event_shows w v _ shown) fresh
          free room in
      let not_full : (m.high_water == max_pages) ≡ false = ground arith in
      (
        stored neu old page m,
        w',
        rw (not_full, ==-ne neu 0 fresh.nonzero, used) refl,
        shown',
        stored-Grew neu old page m v h more,
      )

  -- A page is given up without a new one, if the list has room.
  pub replace_by_none-Shows :
      (old inode page : ℕ) (m : PageState) (w : W) (v : View)
      → laws.Shows w v
      → IsOld m v
      → (r : Result) × (m' : PageState) × (w' : W) × (replace ops.pages max_pages max_pages
            data_io_topic 0 old inode page m w
          ≡ (r, (m', w')))
        × laws.Shows w' v
        × ((m' ≡ m) ⊎ ((m.high_water < max_pages) × Grew old m m'))
  unfolding replace
  replace_by_none-Shows old inode page m w v shown h =
      elim (Bool-cases (m.high_water == max_pages)) [
        | inl full ↦ (low_mem, m, w, rw full refl, shown, inl refl)
        | inr more ↦
            let room : m.high_water < max_pages = ground (arith, h.in_list) in
            (
              ok,
              stored 0 old page m,
              logged 0 old inode page w,
              rw more refl,
              laws.event_shows w v _ shown,
              inr (room, stored-Grew 0 old page m v h room),
            )
      ]

  -- Pages that become dirty and are not in the file leave it as it is.
  dirty_from-Shows :
      (rounds i : ℕ) (pages : List ℕ) (w : W) (v : View)
      → laws.Shows w v
      → ((j : ℕ)
          → j < i + rounds
          → get_or pages j 0 ≢ 0
          → (v.issued (get_or pages j 0) ≡ true) × IsUnused limit v (get_or pages j 0))
      → (v' : View) × laws.Shows
          (dirty_from ops.pages max_pages max_pages data_io_topic rounds i pages w)
          v'
        × SameFile v v'
  unfolding dirty_from
  dirty_from-Shows zero i pages w v shown out = (
    v,
    shown,
    record {
      same_target = refl;
      same_addresses = refl;
      same_addr = λ p. refl;
      same_byte = λ a k. refl;
    },
  )
  dirty_from-Shows (suc rounds) i pages w v shown out = elim (ℕ_discrete (get_or pages i 0) 0) [
    | yes e ↦
        rw ((==_iff (get_or pages i 0) 0).1 e)
          (dirty_from-Shows rounds (i + 1) pages w v shown (λ j low. out j (omega arith)))
    | no ne ↦
        let (v', shown', same) =
          dirty_from-Shows rounds (i + 1) pages _ (without (get_or pages i 0) v)
            (laws.dirty_shows w v (get_or pages i 0) shown (out i (omega arith) ne).0
              (out i (omega arith) ne).1)
            (λ j low. out j (omega arith)) in
        rw (==-ne (get_or pages i 0) 0 ne) (
          v',
          shown',
          record {
            same_target = same.same_target;
            same_addresses = same.same_addresses;
            same_addr = same.same_addr;
            same_byte = same.same_byte;
          },
        )
  ]

  -- `invalidateOldPages` leaves the file as it is.
  pub invalidate-Shows :
      (m : PageState) (w : W) (v : View)
      → laws.Shows w v
      → IsOld m v
      → (v' : View) × laws.Shows (invalidate ops.pages max_pages max_pages data_io_topic m w).1.1 v'
        × SameFile v v'
  unfolding invalidate
  invalidate-Shows m w v shown h =
      let (v', marked, same) = dirty_from-Shows m.high_water 0 m.old_pages w v shown (λ j low ne.
        let (was, unused) = h.old j (omega arith) ne in
        (laws.written_issued w v (get_or m.old_pages j 0) shown was, unused)) in
      (
        v',
        if-elim (λ (x : W). laws.Shows x v')
            (any_from ops.pages max_pages max_pages data_io_topic m.high_water 0 m.old_pages) _ _
            (λ _. laws.event_shows _ v' (pagestate data_io_topic invalidate_old_pages) marked)
            (λ _. marked),
        same,
      )
