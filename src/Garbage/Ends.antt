-- ===== src/Garbage/Ends.antt =====
-- `collectGarbage` ends: it calls itself at most once for every area that it could take.
use paffs.Prelude.{
  some, ℕ, zero, suc, ◌≤◌, ◌<◌, ◌≡◌, ◌≢◌, refl, sym, ap, ◌∙◌, inl, inr, Bool, true, false, not,
  ◌&&◌, ◌||◌, List, leb, ◌==◌, if◌then◌else◌, Bool-cases, ℕ_discrete, get_or, arith,
}
use paffs.Types.{
  Result, no_space, is_ok, AreaType, AreaStatus, is_retired, is_unset, Area, SummaryEntry,
}
use paffs.Superblock
use paffs.Superblock.{zero_area}
use paffs.Device.{Env, Device, swap_area_position}
use paffs.AreaMgmt.{type_of, delete}
use paffs.Garbage.{GarbageOps, Favourite, holds_files, is_active, is_candidate, find_next_best_area}
use paffs.Garbage.Collect.{collect_garbage, collect_valid, take_over, garbage_area}
use paffs.Garbage.Rounds.{IsGivenUp, delete-fails, candidates}
use paffs.Garbage.Search.{SummaryLaws, find_next_best_area_lem}

module _ {F C P : Type 0} (e : Env F C P) (ops : GarbageOps F (Device F C P)) where
  abbrev D : Type 0
  D = Device F C P

  -- Whether an entry of the map could be taken.
  abbrev fit : ℕ → Area → Bool
  fit j x =
      not (is_active (if leb e.config.areas_no j then AreaStatus.active else x.status))
      && holds_files (if leb e.config.areas_no j then AreaType.no_type else x.type)

  candidate_fit : (j : ℕ) (d : D) → is_candidate e ops j d ≡ fit j (get_or d.sb.map j zero_area)
  unfolding is_candidate Superblock.get_status Superblock.get_type
  candidate_fit j d = refl

  candidate_other :
      (a j : ℕ) (d d' : D) (low : a < e.config.areas_no)
      → IsGivenUp e a low d d'
      → j ≢ a
      → is_candidate e ops j d' ≡ is_candidate e ops j d
  candidate_other a j d d' low g ne =
      candidate_fit j d' ∙ ap (fit j) (g.others j ne) ∙ sym (candidate_fit j d)

  candidate_gone :
      (a : ℕ) (d d' : D) (low : a < e.config.areas_no)
      → IsGivenUp e a low d d'
      → is_candidate e ops a d' ≡ false
  candidate_gone a d d' low g = candidate_fit a d' ∙ ground (arith, g.no_files)

  candidate_live :
      (a : ℕ) (d : D) → is_candidate e ops a d ≡ true → is_retired (type_of e a d) ≡ false
  unfolding is_candidate
  candidate_live a d c = ground (arith, c)

  candidate_same :
      (j : ℕ) (d d' : D) → d'.sb ≡ d.sb → is_candidate e ops j d' ≡ is_candidate e ops j d
  candidate_same j d d' same =
      candidate_fit j d'
      ∙ ap (λ sb. fit j (get_or sb.map j zero_area)) same
      ∙ sym (candidate_fit j d)

  candidates-same : (n : ℕ) (d d' : D) → d'.sb ≡ d.sb → candidates e ops n d' ≡ candidates e ops n d
  unfolding candidates
  candidates-same zero d d' same = refl
  candidates-same (suc n) d d' same =
      rw (candidate_same n d d' same, candidates-same n d d' same) refl

  -- One area less.
  candidates-less :
      (n a : ℕ) (d d' : D) (low : a < e.config.areas_no)
      → IsGivenUp e a low d d'
      → is_candidate e ops a d ≡ true
      → (candidates e ops n d' ≤ candidates e ops n d)
        × (a < n → candidates e ops n d' < candidates e ops n d)
  unfolding candidates
  candidates-less zero a d d' low g c = (omega arith, λ lt. absurd (omega arith))
  candidates-less (suc n) a d d' low g c =
      let (le, less) = candidates-less n a d d' low g c in
      elim (ℕ_discrete n a) [
        | yes eq ↦
            let gone : is_candidate e ops n d' ≡ false = rw eq (candidate_gone a d d' low g) in
            let was : is_candidate e ops n d ≡ true = rw eq c in
            rw (gone, was) (omega (arith, le), λ _. omega (arith, le))
        | no ne ↦
            rw (candidate_other a n d d' low g ne) (elim (Bool-cases (is_candidate e ops n d)) [
              | inl here ↦
                  rw here (omega (arith, le), λ lt. omega (arith, less (omega (arith, ne))))
              | inr not_here ↦ rw not_here (le, λ lt. less (omega (arith, ne)))
            ])
      ]

  -- What a collection relies on: after a deletion summaries can be read again.
  pub record DeletionLaws (laws : SummaryLaws ops) : Type 0 where
    pub keeps :
        (a : ℕ) (d : D) (sums : ℕ → List SummaryEntry)
        → laws.Knows sums d
        → (sums' : ℕ → List SummaryEntry) × laws.Knows sums' (delete e a d).1

  module _ (laws : SummaryLaws ops) (kept : DeletionLaws laws) (worse : Result → Result → Result)
      (target : AreaType) (normal : is_unset target ≡ false) where
    abbrev Ends : ℕ → D → Type 0
    Ends fuel d = (rd : Result × D) × (collect_garbage e ops worse fuel target d ≡ some rd)

    abbrev found : D → Favourite × D
    found d = find_next_best_area e ops target d

    -- One round: it answers, or goes on behind a deletion that did not succeed.
    round :
        (fuel : ℕ) (d : D)
        → (is_ok (delete e (found d).0.area (found d).1).0 ≡ false
            → ((found d).0.area == 0) ≡ false
            → Ends fuel (delete e (found d).0.area (found d).1).1)
        → Ends (suc fuel) d
    unfolding collect_garbage
    round fuel d on =
        elim (Bool-cases (
          (found d).0.area == 0
          || ((found d).0.valid && garbage_area e ops worse (found d).1 == 0))) [
            | inl stop ↦ ((no_space, (found d).1), rw stop refl)
            | inr go ↦ elim (Bool-cases (found d).0.valid) [
              | inl v ↦ (collect_valid e ops worse target (found d).0 (found d).1, rw (go, v) refl)
              | inr nv ↦ elim (Bool-cases (is_ok (delete e (found d).0.area (found d).1).0)) [
                | inl deleted ↦ (
                  take_over e ops worse target (found d).0.area (
                      swap_area_position e (found d).0.area
                        (garbage_area e ops worse (delete e (found d).0.area (found d).1).1)
                        (delete e (found d).0.area (found d).1).1),
                  rw (go, nv, deleted) refl,
                )
                | inr failed ↦
                    let (rd, e1) = on failed (ground (arith, go)) in (rd, rw (go, nv, failed) e1)
              ]
            ]
          ]

    -- For a type other than unset, where the summaries can be read, also after a deletion:
    -- collectGarbage answers, when more rounds are allowed than there are areas that it could take.
    pub collect_garbage_ends :
        (fuel : ℕ) (d : D) (sums : ℕ → List SummaryEntry)
        → laws.Knows sums d
        → candidates e ops e.config.areas_no d < fuel
        → Ends fuel d
    collect_garbage_ends zero d sums knows enough = absurd (omega arith)
    collect_garbage_ends (suc fuel) d sums knows enough =
        let (answer, same, knows1) =
          find_next_best_area_lem e ops target sums laws normal d knows in
        round fuel d (λ failed ne. elim answer [
          | inr n ↦ absurd (ground (arith, n.no_area, ne))
          | inl t ↦
              let (sums', knows2) = kept.keeps (found d).0.area (found d).1 sums knows1 in
              let c1 : is_candidate e ops (found d).0.area (found d).1 ≡ true =
                candidate_same (found d).0.area d (found d).1 same ∙ t.candidate in
              let g : IsGivenUp e (found d).0.area t.in_range (found d).1
                  (delete e (found d).0.area (found d).1).1 =
                delete-fails e (found d).0.area t.in_range (found d).1
                  (candidate_live (found d).0.area (found d).1 c1) failed in
              let less =
                (candidates-less e.config.areas_no (found d).0.area (found d).1 _ t.in_range g c1).1
                  t.in_range in
              collect_garbage_ends fuel _ sums' knows2
                (omega (arith, less, candidates-same e.config.areas_no d (found d).1 same, enough))
        ])
