-- ===== src/SummaryCache/Entries.antt =====
-- The map from areas to positions against the elements.
use paffs.Prelude.{
  ℕ, Option-cases, inl, inr, get_or-set_ne, get_or-set_self, ◌<◌, ◌≡◌, ◌≢◌, refl, sym, ap, subst,
  ◌∙◌, true, false, ℕ_discrete, List, [], ◌∷◌, none, some, ◌==◌, if◌then◌else◌, if-elim, get_or,
  set, length, length-set, arith,
}
use paffs.AreaSummary.{Elem, clear, is_used, set_area, with_flag}
use paffs.AreaSummary.Laws.{flag-with_flag}
use paffs.SummaryCache.{
  is_some, or_zero, Cache, find, drop, exists_elem, elem_pos, enable_elem, remove_elem,
}

-- An element that is not in use is put to use for the area.
set_area_lem :
    (area : ℕ) (e : Elem)
    → is_used e ≡ false
    → e.status_bits < 256
    → (is_used (set_area area e) ≡ true) × ((set_area area e).area ≡ area)
unfolding set_area with_flag
set_area_lem area e unused byte =
    let opened : set_area area e ≡ with_flag 3 true (record e { area = area }) =
      ground (arith, unused) in
    (
      ap is_used opened
          ∙ flag-with_flag 3 3 true (record e { area = area }) byte (omega arith) (omega arith),
      ground (arith, unused),
    )

module _ (n : ℕ) where
  -- Each area stands once, with the position of an element that is in use for it.
  unfoldable pub IsEntry : List Elem → ℕ → ℕ → Type 0
  IsEntry es area pos =
      (pos < length es)
      × (is_used (get_or es pos (clear n)) ≡ true)
      × ((get_or es pos (clear n)).area ≡ area)

  unfoldable pub IsTranslation : List Elem → List (ℕ × ℕ) → Type 0
  IsTranslation es [] = Unit
  IsTranslation es (x ∷ xs) = (find x.0 xs ≡ none) × (IsEntry es x.0 x.1) × IsTranslation es xs

  find-IsEntry :
      (es : List Elem) (xs : List (ℕ × ℕ)) (area pos : ℕ)
      → IsTranslation es xs
      → find area xs ≡ some pos
      → IsEntry es area pos
  unfolding find IsTranslation IsEntry
  find-IsEntry es [] area pos h found = absurd (ground arith)
  find-IsEntry es (x ∷ xs) area pos h found =
      ground (arith, h.0, h.1, h.2, find-IsEntry es xs area pos)

  find-drop :
      (es : List Elem) (area a : ℕ) (xs : List (ℕ × ℕ))
      → IsTranslation es xs
      → find a (drop area xs) ≡ (if a == area then none else find a xs)
  unfolding find drop IsTranslation
  find-drop es area a [] h = ground arith
  find-drop es area a (x ∷ xs) h = ground (arith, h, find-drop es area a xs)

  find-drop-none :
      (area a : ℕ) (xs : List (ℕ × ℕ)) → find a xs ≡ none → find a (drop area xs) ≡ none
  unfolding find drop
  find-drop-none area a [] h = refl
  find-drop-none area a (x ∷ xs) h = ground (arith, find-drop-none area a xs)

  drop-IsTranslation :
      (es : List Elem) (area : ℕ) (xs : List (ℕ × ℕ))
      → IsTranslation es xs
      → IsTranslation es (drop area xs)
  unfolding drop IsTranslation
  drop-IsTranslation es area [] h = tt
  drop-IsTranslation es area (x ∷ xs) h =
      if-elim (IsTranslation es) (x.0 == area) _ _ (λ t. h.2)
        (λ f. (find-drop-none area x.0 xs h.0, h.1, drop-IsTranslation es area xs h.2))

  IsEntry-set :
      (es : List Elem) (pos : ℕ) (e : Elem) (area p : ℕ)
      → pos ≢ p
      → IsEntry es area p
      → IsEntry (set es pos e) area p
  unfolding IsEntry
  IsEntry-set es pos e area p ne h =
      let same : get_or es p (clear n) ≡ get_or (set es pos e) p (clear n) =
        sym (get_or-set_ne es pos p e (clear n) ne) in
      (
        omega (arith, h.0, length-set es pos e),
        subst (λ x. is_used x ≡ true) same h.1,
        subst (λ (x : Elem). x.area ≡ area) same h.2,
      )

  distinct : true ≢ false
  distinct h = ground arith

  -- A change of an element that is not in use.
  set_unused-IsTranslation :
      (es : List Elem) (pos : ℕ) (e : Elem) (xs : List (ℕ × ℕ))
      → is_used (get_or es pos (clear n)) ≡ false
      → IsTranslation es xs
      → IsTranslation (set es pos e) xs
  unfolding IsTranslation IsEntry
  set_unused-IsTranslation es pos e [] unused h = tt
  set_unused-IsTranslation es pos e (x ∷ xs) unused h = (
    h.0,
    IsEntry-set es pos e x.0 x.1
        (λ same.
          distinct (sym h.1.1 ∙ ap (λ p. is_used (get_or es p (clear n))) (sym same) ∙ unused))
        h.1,
    set_unused-IsTranslation es pos e xs unused h.2,
  )

  -- A change of an element of an area that is not in the map.
  set_missing-IsTranslation :
      (es : List Elem) (pos area : ℕ) (e : Elem) (xs : List (ℕ × ℕ))
      → (get_or es pos (clear n)).area ≡ area
      → find area xs ≡ none
      → IsTranslation es xs
      → IsTranslation (set es pos e) xs
  unfolding IsTranslation IsEntry find
  set_missing-IsTranslation es pos area e [] here missing h = tt
  set_missing-IsTranslation es pos area e (x ∷ xs) here missing h =
      let other : x.0 ≢ area = ground (arith, missing) in
      let rest : find area xs ≡ none = ground (arith, missing) in
      (
        h.0,
        IsEntry-set es pos e x.0 x.1
            (λ same. other (sym h.1.2 ∙ ap (λ p. (get_or es p (clear n)).area) (sym same) ∙ here))
            h.1,
        set_missing-IsTranslation es pos area e xs here rest h.2,
      )

  unfoldable pub IsCache : Cache → Type 0
  IsCache c = IsTranslation c.elems c.translation

  module _ (c : Cache) (area : ℕ) (cache : IsCache c) where
    found-IsEntry : exists_elem n area c ≡ true → IsEntry c.elems area (elem_pos n area c)
    unfolding exists_elem elem_pos IsCache
    found-IsEntry there = elim (Option-cases (find area c.translation)) [
      | inl e ↦ absurd (distinct (sym there ∙ ap is_some e))
      | inr (p, e) ↦
          subst (IsEntry c.elems area) (sym (ap or_zero e))
            (find-IsEntry c.elems c.translation area p cache e)
    ]

    missing : find area (drop area c.translation) ≡ none
    unfolding IsCache
    missing = ground (arith, find-drop c.elems area area c.translation cache)

    -- Removing an area keeps the map true, and no other area is lost.
    pub remove_elem-IsCache : IsCache (remove_elem n area c)
    unfolding IsCache remove_elem IsEntry
    remove_elem-IsCache =
        if-elim IsCache (exists_elem n area c) _ _
          (λ t.
            set_missing-IsTranslation c.elems (elem_pos n area c) area (clear n)
              (drop area c.translation) (found-IsEntry t).2 missing
              (drop-IsTranslation c.elems area c.translation cache))
          (λ f. cache)

    pub find-remove_elem :
        (a : ℕ)
        → find a (remove_elem n area c).translation
          ≡ (if a == area then none else find a c.translation)
    unfolding remove_elem IsCache exists_elem
    find-remove_elem a =
        if-elim
          (λ (d : Cache). find a d.translation ≡ (if a == area then none else find a c.translation))
          (is_some (find area c.translation)) _ _
          (λ t. find-drop c.elems area a c.translation cache)
          (λ f.
            let gone : find area c.translation ≡ none =
              elim (Option-cases (find area c.translation)) [
                | inl e ↦ e
                | inr (p, e) ↦ absurd (distinct (sym (ap is_some e) ∙ f))
              ] in
            elim (ℕ_discrete a area) [
              | yes e ↦ ground (arith, e, gone, ap (λ k. find k c.translation) e)
              | no ne ↦ ground (arith, ne)
            ])

    pub enable_elem-IsCache :
        (pos : ℕ)
        → pos < length c.elems
        → is_used (get_or c.elems pos (clear n)) ≡ false
        → (get_or c.elems pos (clear n)).status_bits < 256
        → IsCache (enable_elem n pos area c)
    unfolding IsCache enable_elem IsTranslation IsEntry
    enable_elem-IsCache pos lt unused byte =
        let fresh : (is_used (set_area area (get_or c.elems pos (clear n))) ≡ true)
            × ((set_area area (get_or c.elems pos (clear n))).area ≡ area) =
          set_area_lem area (get_or c.elems pos (clear n)) unused byte in
        let here : get_or (set c.elems pos (set_area area (get_or c.elems pos (clear n)))) pos
              (clear n)
            ≡ set_area area (get_or c.elems pos (clear n)) =
          get_or-set_self c.elems pos _ (clear n) lt in
        (
          missing,
          (
            omega
                (arith, lt, length-set c.elems pos (set_area area (get_or c.elems pos (clear n)))),
            ap is_used here ∙ fresh.0,
            ap Elem.area here ∙ fresh.1,
          ),
          set_unused-IsTranslation c.elems pos (set_area area (get_or c.elems pos (clear n)))
              (drop area c.translation) unused
              (drop-IsTranslation c.elems area c.translation cache),
        )
