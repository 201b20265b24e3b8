-- ===== src/Pool/Clear.antt =====
-- `ObjectPool::clear` frees what is in use, and leaves an empty pool.
use paffs.Prelude.{
  ℕ, zero, suc, ◌+◌, ◌≤◌, ◌<◌, ◌≡◌, refl, sym, ap, subst, ◌∙◌, Bool, true, false, ltb, leb, ◌==◌,
  ◌&&◌, if◌then◌else◌, get_or, arith, inl, inr, Bool-cases,
}
use native.Mathlib.Decide.{dec_lt}
use paffs.BitList.{get_bit}
use paffs.BitList.Laws.{get_bit-reset_bit, clear-IsBitList, get_bit-clear}
use paffs.Pool.{ObjectPool, free_object, free_from, clear}
use paffs.Pool.Laws.{IsPool, is_used, freed, freed-IsPool, object-set, foreign_unused, free-used}

module _ {T : Type 0} (size beyond : ℕ) (fresh zeroed : T) where
  -- One round of the loop.
  abbrev freed_if : ℕ → ObjectPool T → ObjectPool T
  freed_if i p =
      if get_bit size i p.active_objects then (free_object size beyond fresh zeroed i p).1 else p

  abbrev object : ℕ → ObjectPool T → T
  object j p = get_or p.objects j zeroed

  module _ (i : ℕ) (p : ObjectPool T) (w : IsPool size p) (h : i < size) where
    -- The pool after a round, the object's use and its content.
    abbrev IsRound : ObjectPool T → Type 0
    IsRound q =
        IsPool size q
        × ((j : ℕ)
            → get_bit size j q.active_objects
              ≡ (if i == j then false else get_bit size j p.active_objects))
        × ((j : ℕ)
            → object j q ≡ (
                if i == j
                then (if get_bit size i p.active_objects then zeroed else object j p)
                else object j p))

    freed_if-IsRound : IsRound (freed_if i p)
    freed_if-IsRound = elim (Bool-cases (get_bit size i p.active_objects)) [
      | inl u ↦ subst IsRound (sym (used_round u)) (used-IsRound u)
      | inr n ↦ subst IsRound (sym (unused_round n)) (unused-IsRound n)
    ]
      where
        used_round :
            get_bit size i p.active_objects ≡ true
            → freed_if i p ≡ freed size beyond fresh zeroed i p w
        used_round u = rw u (ap (λ r. r.1) (free-used size beyond fresh zeroed i p w h u))

        unused_round : get_bit size i p.active_objects ≡ false → freed_if i p ≡ p
        unused_round n = rw n refl

        used-IsRound :
            get_bit size i p.active_objects ≡ true → IsRound (freed size beyond fresh zeroed i p w)
        used-IsRound u = (
          freed-IsPool size beyond fresh zeroed i p w,
          (λ j. get_bit-reset_bit size i p.active_objects w.bits j h),
          λ j.
              rw u
                (object-set size beyond fresh zeroed zeroed p.objects i j (omega (arith, w.sized))),
        )

        unused-IsRound : get_bit size i p.active_objects ≡ false → IsRound p
        unused-IsRound n = (w, (λ j. ground arith), λ j. ground arith)

  abbrev within_rounds : ℕ → ℕ → ℕ → Bool
  within_rounds rounds i j = leb i j && ltb j (i + rounds)

  -- The pool after the loop.
  abbrev IsFreedFrom : ℕ → ℕ → ObjectPool T → ObjectPool T → Type 0
  IsFreedFrom rounds i p q =
      IsPool size q
      × ((j : ℕ)
          → object j q ≡ (
              if within_rounds rounds i j
              then (if get_bit size j p.active_objects then zeroed else object j p)
              else object j p))

  free_from-IsFreedFrom :
      (rounds i : ℕ) (p : ObjectPool T)
      → IsPool size p
      → i + rounds ≤ size
      → IsFreedFrom rounds i p (free_from size beyond fresh zeroed rounds i p)
  unfolding free_from
  free_from-IsFreedFrom zero i p w h = (w, λ j. ground arith)
  free_from-IsFreedFrom (suc rounds) i p w h =
      let r : IsRound i p w (omega arith) (freed_if i p) = freed_if-IsRound i p w (omega arith) in
      let ih : IsFreedFrom rounds (i + 1) (freed_if i p)
          (free_from size beyond fresh zeroed rounds (i + 1) (freed_if i p)) =
        free_from-IsFreedFrom rounds (i + 1) (freed_if i p) r.0 (omega arith) in
      (ih.0, λ j. ih.1 j ∙ ground (arith, r.1 j, r.2 j))

  -- `clear` leaves a pool of the same shape in which no object is in use; the objects that were
  -- in use are zeroed, and the others are as before.
  pub clear_lem :
      (p : ObjectPool T)
      → IsPool size p
      → IsPool size (clear size beyond fresh zeroed p)
        × ((j : ℕ) → is_used size beyond fresh zeroed j (clear size beyond fresh zeroed p) ≡ false)
        × ((j : ℕ)
            → object j (clear size beyond fresh zeroed p)
              ≡ (if is_used size beyond fresh zeroed j p then zeroed else object j p))
  unfolding clear
  clear_lem p w =
      let f : IsFreedFrom size 0 p (free_from size beyond fresh zeroed size 0 p) =
        free_from-IsFreedFrom size 0 p w (omega arith) in
      (
        record { bits = clear-IsBitList size; sized = f.0.sized },
        get_bit-clear size,
        λ j. elim (dec_lt j size) [
          | yes h ↦ f.1 j ∙ ground arith
          | no h ↦
              f.1 j ∙ ground (arith, foreign_unused size beyond fresh zeroed j p w (omega arith))
        ],
      )
