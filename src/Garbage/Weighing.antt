-- ===== src/Garbage/Weighing.antt =====
-- `findNextBestArea`: one area is weighed against the favourite.
use paffs.Prelude.{
  ℕ, zero, suc, ◌+◌, ◌≤◌, ◌<◌, ◌≡◌, ◌≢◌, refl, sym, ap, ◌∙◌, ◌⊎◌, inl, inr, Bool, true, false, List,
  ltb, ◌==◌, if◌then◌else◌, Bool-cases, ==_iff, ℕ_discrete, get_or, arith,
}
use paffs.Types.{AreaType, is_unset, type_no, SummaryEntry, error}
use paffs.Superblock
use paffs.Device.{Env, Device}
use paffs.AreaMgmt.{type_of}
use paffs.Garbage.{
  GarbageOps, Favourite, count_pages, is_dirty, is_used, dirty_in, used_in, is_candidate,
  is_cleanable, is_better, weigh,
}

-- No page is dirty and used at once.
count-add-count :
    (rounds i : ℕ) (summary : List SummaryEntry)
    → count_pages is_dirty rounds i summary + count_pages is_used rounds i summary ≤ rounds
unfolding count_pages
count-add-count zero i summary = omega arith
count-add-count (suc rounds) i summary =
    elim (get_or summary i error)
      as (λ s.
        (if is_dirty s
            then count_pages is_dirty rounds (i + 1) summary + 1
            else count_pages is_dirty rounds (i + 1) summary)
          + (if is_used s
              then count_pages is_used rounds (i + 1) summary + 1
              else count_pages is_used rounds (i + 1) summary)
        ≤ suc rounds) [
          | SummaryEntry.free ↦ omega (arith, count-add-count rounds (i + 1) summary)
          | SummaryEntry.used ↦ omega (arith, count-add-count rounds (i + 1) summary)
          | SummaryEntry.dirty ↦ omega (arith, count-add-count rounds (i + 1) summary)
          | SummaryEntry.error ↦ omega (arith, count-add-count rounds (i + 1) summary)
        ]

module _ {F C P : Type 0} (e : Env F C P) (ops : GarbageOps F (Device F C P)) (target : AreaType)
    (sums : ℕ → List SummaryEntry) where
  -- An area that garbage collection may take for the type.
  abbrev pub IsOfTarget : ℕ → Device F C P → Type 0
  IsOfTarget j d = (is_candidate e ops j d ≡ true) × (type_no (type_of e j d) ≡ type_no target)

  abbrev pub dirty_of : ℕ → ℕ
  dirty_of j = dirty_in e ops (sums j)

  abbrev pub all_pages : ℕ
  all_pages = e.config.data_pages_per_area

  -- The area taken, with its summary; where no valid data is reported no page is used.
  pub record IsTaken (d : Device F C P) (b : Favourite) : Type 0 where
    pub candidate : is_candidate e ops b.area d ≡ true
    pub in_range : b.area < e.config.areas_no
    pub summary_is : b.summary ≡ sums b.area
    pub valid_is : b.valid ≡ ltb 0 (used_in e ops (sums b.area))
    pub usable : (type_no (type_of e b.area d) ≡ type_no target) ⊎ (dirty_of b.area ≡ all_pages)
    pub some_dirty : (0 < dirty_of b.area) ⊎ (all_pages ≡ 0)
    pub best : (j : ℕ) → j < e.config.areas_no → IsOfTarget j d → dirty_of j ≤ dirty_of b.area

  -- None: every area of the type is without a dirty page.
  pub record IsNone (d : Device F C P) (b : Favourite) : Type 0 where
    pub no_area : b.area ≡ 0
    pub not_valid : b.valid ≡ false
    pub clean : (j : ℕ) → j < e.config.areas_no → IsOfTarget j d → dirty_of j ≡ 0

  -- In the loop, in front of area `i`.
  pub record Searched (d : Device F C P) (i : ℕ) (b : Favourite) : Type 0 where
    pub seen : (j : ℕ) → j < i → IsOfTarget j d → dirty_of j ≤ b.dirty_pages
    pub chosen :
        b.dirty_pages ≢ 0
        → (is_candidate e ops b.area d ≡ true)
          × (b.area < e.config.areas_no)
          × (type_no (type_of e b.area d) ≡ type_no target)
          × (dirty_of b.area ≡ b.dirty_pages)
          × (b.summary ≡ sums b.area)
          × (b.valid ≡ ltb 0 (used_in e ops (sums b.area)))
    pub nothing : b.dirty_pages ≡ 0 → (b.area ≡ 0) × (b.valid ≡ false)

  pub Searched-end :
      (d : Device F C P) (b : Favourite) → Searched d e.config.areas_no b → IsTaken d b ⊎ IsNone d b
  Searched-end d b h = elim (Bool-cases (b.dirty_pages == 0)) [
    | inl zero_dirty ↦ inr (record {
      no_area = (h.nothing (ground arith)).0;
      not_valid = (h.nothing (ground arith)).1;
      clean = λ j lt o. ground (arith, h.seen j lt o);
    })
    | inr some_dirty ↦
        let (c, r, t, n, s, v) = h.chosen (λ z. ground (arith, z)) in
        inl (record {
          candidate = c;
          in_range = r;
          summary_is = s;
          valid_is = v;
          usable = inl t;
          some_dirty = inl (ground arith);
          best = λ j lt o. ground (arith, h.seen j lt o);
        })
  ]

  count-le : (j : ℕ) → dirty_of j + used_in e ops (sums j) ≤ all_pages
  count-le j = count-add-count all_pages 0 (sums j)

  module _ (normal : is_unset target ≡ false) (d d1 : Device F C P) (i : ℕ) (b : Favourite)
      (same : d1.sb ≡ d.sb) (h : Searched d i b) (low : i < e.config.areas_no)
      (candidate : is_candidate e ops i d ≡ true) where
    abbrev weighed : Bool × Favourite
    weighed = weigh e ops target i (sums i) b d1

    same_type : type_of e i d1 ≡ type_of e i d
    same_type = ap (λ sb. Superblock.get_type e.config i sb) same

    clean_is : is_cleanable e ops i (sums i) d1 ≡ true → dirty_of i ≡ all_pages
    unfolding is_cleanable
    clean_is c = ground (arith, c)

    better_is :
        is_better e ops i (sums i) b d1 ≡ true → (b.dirty_pages ≤ dirty_of i) × (dirty_of i ≢ 0)
    unfolding is_better
    better_is c = (ground (arith, c), λ z. ground (arith, c, z))

    worse_is : is_better e ops i (sums i) b d1 ≡ false → dirty_of i ≤ b.dirty_pages
    unfolding is_better
    worse_is c = ground (arith, c)

    IsTaken-clean :
        dirty_of i ≡ all_pages → IsTaken d (record b { area = i; valid = false; summary = sums i })
    IsTaken-clean all = record {
      candidate = candidate;
      in_range = low;
      summary_is = refl;
      valid_is = ground (arith, count-le i, all);
      usable = inr all;
      some_dirty = ground (arith, all);
      best = λ j lt o. omega (arith, count-le j, all);
    }

    kept :
        (type_no (type_of e i d) ≡ type_no target → dirty_of i ≤ b.dirty_pages)
        → Searched d (i + 1) b
    kept le = record {
      seen = λ j lt o. elim (ℕ_discrete j i) [
        | yes eq ↦ rw eq (le (ap (λ n. type_no (type_of e n d)) (sym eq) ∙ o.1))
        | no ne ↦ h.seen j (omega (arith, ne)) o
      ];
      chosen = h.chosen;
      nothing = h.nothing;
    }

    preferred :
        (erases : ℕ)
        → type_no (type_of e i d) ≡ type_no target
        → b.dirty_pages ≤ dirty_of i
        → dirty_of i ≢ 0
        → Searched d (i + 1) (record {
          area = i;
          dirty_pages = dirty_of i;
          erases = erases;
          valid = ltb 0 (used_in e ops (sums i));
          summary = sums i;
        })
    preferred erases ty le ne = record {
      seen = λ j lt o. elim (ℕ_discrete j i) [
        | yes eq ↦ rw eq (omega arith)
        | no other ↦ omega (arith, le, h.seen j (omega (arith, other)) o)
      ];
      chosen = λ _. (candidate, low, ty, refl, refl, refl);
      nothing = λ z. absurd (ne z);
    }

    pub weigh_lem :
        ((weighed.0 ≡ true) × IsTaken d weighed.1)
        ⊎ ((weighed.0 ≡ false) × Searched d (i + 1) weighed.1)
    unfolding weigh
    weigh_lem = rw normal (elim (Bool-cases (is_cleanable e ops i (sums i) d1)) [
      | inl c ↦ rw c (inl (refl, IsTaken-clean (clean_is c)))
      | inr c ↦ elim (Bool-cases (type_no (type_of e i d1) == type_no target)) [
        | inr t ↦ rw (c, t) (inr (refl, kept (λ eq. ground (arith, t, eq, ap type_no same_type))))
        | inl t ↦
            let ty : type_no (type_of e i d) ≡ type_no target =
              sym (ap type_no same_type) ∙ (==_iff _ _).0 t in
            elim (Bool-cases (is_better e ops i (sums i) b d1)) [
              | inl g ↦ rw (c, t, g) (inr (refl, preferred _ ty (better_is g).0 (better_is g).1))
              | inr g ↦ rw (c, t, g) (inr (refl, kept (λ _. worse_is g)))
            ]
      ]
    ])
