-- ===== src/Garbage/Writable.antt =====
-- src/area.cpp, `findWritableArea`: when it finds an empty area.
use paffs.Prelude.{
  some, ℕ, zero, suc, ◌+◌, ◌-◌, ◌≤◌, ◌<◌, ◌≡◌, ◌≢◌, refl, ap, ◌∙◌, inl, inr, true, false, lt→ltb,
  ==_iff, ==-ne, Bool-cases, ℕ_discrete, arith,
}
use paffs.Types.{Result, ok, AreaType}
use paffs.Device.{Env, Device}
use paffs.AreaMgmt.{init_as}
use paffs.Garbage.{GarbageOps}
use paffs.Garbage.Collect.{active_of, is_takeable, is_fresh_enough, first_empty, find_writable_area}

module _ {F C P : Type 0} (e : Env F C P) (ops : GarbageOps F (Device F C P))
    (worse : Result → Result → Result) (d : Device F C P) where
  abbrev Takes : ℕ → ℕ → ℕ → Type 0
  Takes rounds i second =
      (b : ℕ) × (first_empty e ops worse rounds i second d ≡ some b)
      × (is_takeable e ops worse b d ≡ true)

  -- With a second choice, some area is found.
  keeps_second :
      (rounds i second : ℕ)
      → second ≢ 0
      → is_takeable e ops worse second d ≡ true
      → Takes rounds i second
  unfolding first_empty
  keeps_second zero i second ne t = (second, rw (==-ne second 0 ne) refl, t)
  keeps_second (suc rounds) i second ne t = elim (Bool-cases (is_takeable e ops worse i d)) [
    | inr no_empty ↦
        let (b, f, tb) = keeps_second rounds (i + 1) second ne t in (b, rw no_empty f, tb)
    | inl here ↦ elim (Bool-cases (is_fresh_enough e ops worse i d)) [
      | inl fresh ↦ (i, rw (here, fresh) refl, here)
      | inr worn ↦
          let (b, f, tb) = keeps_second rounds (i + 1) second ne t in
          (b, rw (here, worn, ==-ne second 0 ne) f, tb)
    ]
  ]

  differs :
      (i a : ℕ) → is_takeable e ops worse a d ≡ true → is_takeable e ops worse i d ≡ false → i ≢ a
  differs i a t f eq = absurd (cc (t, f, ap (λ n. is_takeable e ops worse n d) eq))

  finds_empty :
      (rounds i a : ℕ)
      → a ≢ 0
      → i ≤ a
      → a < i + rounds
      → is_takeable e ops worse a d ≡ true
      → Takes rounds i 0
  unfolding first_empty
  finds_empty zero i a ne from to t = absurd (omega arith)
  finds_empty (suc rounds) i a ne from to t = elim (Bool-cases (is_takeable e ops worse i d)) [
    | inr no_empty ↦
        let (b, f, tb) =
          finds_empty rounds (i + 1) a ne (omega (arith, differs i a t no_empty)) (omega arith) t in
        (b, rw no_empty f, tb)
    | inl here ↦ elim (Bool-cases (is_fresh_enough e ops worse i d)) [
      | inl fresh ↦ (i, rw (here, fresh) refl, here)
      | inr worn ↦ elim (ℕ_discrete i 0) [
        | yes at_start ↦
            let (b, f, tb) =
              finds_empty rounds (i + 1) a ne (omega (arith, at_start, ne)) (omega arith) t in
            (
              b,
              rw (here, worn) (ap (λ s. first_empty e ops worse rounds (i + 1) s d) at_start ∙ f),
              tb,
            )
        | no later ↦
            let (b, f, tb) = keeps_second rounds (i + 1) i later here in (b, rw (here, worn) f, tb)
      ]
    ]
  ]

  -- If no area of the type is active, the reserve is not touched and an area other than 0 is empty
  -- at a place other than 6: findWritableArea answers ok with an empty area, now taken into use,
  -- without a garbage collection.
  pub find_writable_area-finds :
      (min_free fuel a : ℕ) (t : AreaType)
      → active_of e ops worse t d ≡ 0
      → d.sb.used < e.config.areas_no - min_free
      → a ≢ 0
      → a < e.config.areas_no
      → is_takeable e ops worse a d ≡ true
      → (b : ℕ) × (find_writable_area e ops worse min_free fuel t d
          ≡ some (ok, (b, init_as e b t d)))
        × (is_takeable e ops worse b d ≡ true)
  unfolding find_writable_area
  find_writable_area-finds min_free fuel a t nothing roomy ne low empty =
      let (b, found, tb) = finds_empty e.config.areas_no 0 a ne (omega arith) (omega arith) empty in
      (b, rw ((==_iff _ 0).1 nothing, lt→ltb _ _ roomy, found) refl, tb)
