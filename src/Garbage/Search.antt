-- ===== src/Garbage/Search.antt =====
-- Which area `findNextBestArea` finds.
use paffs.Prelude.{
  ℕ, zero, suc, ◌+◌, ◌≡◌, refl, ap, subst, ◌∙◌, ◌⊎◌, inl, inr, false, not, ◌&&◌, List, Bool-cases,
  ℕ_discrete, arith,
}
use paffs.Types.{ok, AreaType, is_unset, SummaryEntry}
use paffs.Superblock
use paffs.Device.{Env, Device}
use paffs.Garbage.{
  GarbageOps, Favourite, is_active, holds_files, is_candidate, search_areas, find_next_best_area,
}
use paffs.Garbage.Weighing.{IsTaken, IsNone, Searched, Searched-end, weigh_lem}

-- What the search relies on: summaries can be read, and reading one leaves the area map alone.
pub record SummaryLaws {F C P : Type 0} (ops : GarbageOps F (Device F C P)) : Type 1 where
  pub Knows : (ℕ → List SummaryEntry) → Device F C P → Type 0
  pub get_ok :
      (sums : ℕ → List SummaryEntry) (i : ℕ) (d : Device F C P)
      → Knows sums d
      → (d' : Device F C P) × (ops.get_summary i d ≡ (ok, (sums i, d')))
        × (d'.sb ≡ d.sb)
        × Knows sums d'

module _ {F C P : Type 0} (e : Env F C P) (ops : GarbageOps F (Device F C P)) (target : AreaType)
    (sums : ℕ → List SummaryEntry) where
  module _ (laws : SummaryLaws ops) (normal : is_unset target ≡ false) (d : Device F C P) where
    -- What the search answers, and that it leaves the area map alone.
    abbrev pub Answers : Favourite × Device F C P → Type 0
    Answers r =
        (IsTaken e ops target sums d r.0 ⊎ IsNone e ops target sums d r.0)
        × (r.1.sb ≡ d.sb)
        × laws.Knows sums r.1

    same_candidate :
        (i : ℕ) (now : Device F C P)
        → now.sb ≡ d.sb
        → is_candidate e ops i now ≡ is_candidate e ops i d
    unfolding is_candidate
    same_candidate i now same =
        ap
          (λ sb.
            not (is_active (Superblock.get_status e.config i sb))
            && holds_files (Superblock.get_type e.config i sb))
          same

    passed :
        (i : ℕ) (b : Favourite)
        → is_candidate e ops i d ≡ false
        → Searched e ops target sums d i b
        → Searched e ops target sums d (i + 1) b
    passed i b c h = record {
      seen = λ j lt o. elim (ℕ_discrete j i) [
        | yes eq ↦ cc (o.0, c, ap (λ n. is_candidate e ops n d) eq)
        | no ne ↦ h.seen j (omega (arith, ne)) o
      ];
      chosen = h.chosen;
      nothing = h.nothing;
    }

    search_areas_lem :
        (rounds i : ℕ) (b : Favourite) (now : Device F C P)
        → i + rounds ≡ e.config.areas_no
        → now.sb ≡ d.sb
        → laws.Knows sums now
        → Searched e ops target sums d i b
        → Answers (search_areas e ops target rounds i b now)
    unfolding search_areas
    search_areas_lem zero i b now all same knows h = (
      Searched-end e ops target sums d b
          (subst (λ n. Searched e ops target sums d n b) (omega arith) h),
      same,
      knows,
    )
    search_areas_lem (suc rounds) i b now all same knows h =
        elim (Bool-cases (is_candidate e ops i d)) [
          | inr c ↦
              rw (same_candidate i now same, c)
                (search_areas_lem rounds (i + 1) b now (omega arith) same knows (passed i b c h))
          | inl c ↦
              let (next, got, kept_sb, knows') = laws.get_ok sums i now knows in
              let same' : next.sb ≡ d.sb = kept_sb ∙ same in
              elim (weigh_lem e ops target sums normal d next i b same' h (omega arith) c) [
                | inl (stop, t) ↦
                    rw (same_candidate i now same, c, got, stop) (inl t, same', knows')
                | inr (on, h') ↦
                    rw (same_candidate i now same, c, got, on)
                      (search_areas_lem rounds (i + 1) _ next (omega arith) same' knows' h')
              ]
        ]

    -- Where the summaries can be read: for a type other than unset, findNextBestArea takes an area
    -- that is not active and holds data or index pages, of the type or completely dirty; no such
    -- area of the type has more dirty pages, and valid data is reported exactly where a page is
    -- used. Or it takes none, and then no such area of the type has a dirty page. The area map stays
    -- as it is.
    pub find_next_best_area_lem : laws.Knows sums d → Answers (find_next_best_area e ops target d)
    unfolding find_next_best_area
    find_next_best_area_lem knows =
        search_areas_lem e.config.areas_no 0 _ d (omega arith) refl knows (record {
          seen = λ j lt o. absurd (omega arith);
          chosen = λ ne. absurd (ne refl);
          nothing = λ _. (refl, refl);
        })
