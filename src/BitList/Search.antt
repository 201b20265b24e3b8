-- ===== src/BitList/Search.antt =====
-- `BitList::findFirstFree` returns the first clear bit, whatever lies behind the array.
use paffs.Prelude.{
  ℕ, zero, suc, ◌+◌, ◌*◌, ◌/◌, ◌%◌, ◌≤◌, ◌<◌, ◌≡◌, refl, subst, ◌⊎◌, inl, inr, true, false, List,
  ◌==◌, get_or, get_or_default, Bool-cases, ==_iff, lt→ltb, le→ltb, arith,
}
use native.Mathlib.Decide.{dec_lt, ℕ_discrete}
use paffs.BitList.{get_bit, find_in_byte, find_from, find_first_free}
use paffs.BitList.Bytes.{test_in_byte_full}
use paffs.BitList.Laws.{IsBitList}

module _ (n : ℕ) (list : List ℕ) where
  -- Every bit from j up to e is set.
  abbrev pub FullTo : ℕ → ℕ → Type 0
  FullTo j e = (k : ℕ) → j ≤ k → k < e → k < n → get_bit n k list ≡ true

  full_none : (j e : ℕ) → e ≤ j → FullTo j e
  full_none j e h k lo hi _ = absurd (omega arith)

  full_cons : (j e : ℕ) → get_bit n j list ≡ true → FullTo (j + 1) e → FullTo j e
  full_cons j e h rest k lo hi lt = elim (ℕ_discrete j k) [
    | yes p ↦ subst (λ k. get_bit n k list ≡ true) p h
    | no p ↦ rest k (omega arith) hi lt
  ]

  full_join : (i j e : ℕ) → FullTo i j → FullTo j e → FullTo i e
  full_join i j e f g k lo hi lt = elim (dec_lt k j) [
    | yes p ↦ f k lo p lt
    | no p ↦ g k (omega arith) hi lt
  ]

  full_past_end : (j e : ℕ) → n ≤ j → FullTo j e
  full_past_end j e h k lo hi lt = absurd (omega arith)

  -- What a scan that starts at bit j and gives up at bit e may return.
  abbrev Scan : ℕ → ℕ → ℕ → ℕ → Type 0
  Scan j e next x = ((x < n) × (get_bit n x list ≡ false) × FullTo j x) ⊎ ((x ≡ next) × FullTo j e)

  find_in_byte-Scan :
      (rounds j e next : ℕ) → j + rounds ≡ e → Scan j e next (find_in_byte n rounds j list next)
  unfolding find_in_byte
  find_in_byte-Scan zero j e next s = inr (refl, full_none j e (omega arith))
  find_in_byte-Scan (suc rounds) j e next s = elim (dec_lt j n) [
    | no p ↦ rw (le→ltb j n (omega arith)) (inr (refl, full_past_end j e (omega arith)))
    | yes p ↦ elim (Bool-cases (get_bit n j list)) [
      | inl set_j ↦
          rw (lt→ltb j n p, set_j)
            (extend set_j (find_in_byte-Scan rounds (j + 1) e next (omega arith)))
      | inr clear_j ↦ rw (lt→ltb j n p, clear_j) (inl (p, clear_j, full_none j j (omega arith)))
    ]
  ]
    where
      extend : get_bit n j list ≡ true → {x : ℕ} → Scan (j + 1) e next x → Scan j e next x
      extend h (inl (a, b, f)) = inl (a, b, full_cons j _ h f)
      extend h (inr (a, f)) = inr (a, full_cons j e h f)

  module _ (w : IsBitList n list) (beyond : ℕ) where
    full_byte : (i : ℕ) → get_or list i beyond ≡ 255 → FullTo (i * 8) (i * 8 + 8)
    unfolding get_bit
    full_byte i h k lo hi lt =
        let here : k / 8 ≡ i = omega arith in
        ground (arith, w.sized, here, get_or_default list i beyond 0, test_in_byte_full (k % 8))

    module _ (i e x : ℕ) (ih : Scan (i * 8 + 8) e n x) where
      join_full : FullTo (i * 8) (i * 8 + 8) → Scan (i * 8) e n x
      join_full f = elim ih [
        | inl (a, b, g) ↦ inl (a, b, full_join _ _ _ f g)
        | inr (a, g) ↦ inr (a, full_join _ _ _ f g)
      ]

      join_part : {y : ℕ} → Scan (i * 8) (i * 8 + 8) x y → Scan (i * 8) e n y
      join_part (inl r) = inl r
      join_part (inr (a, f)) = rw a (join_full f)

    find_from-Scan :
        (rounds i b e : ℕ)
        → i * 8 ≡ b
        → b + rounds * 8 ≡ e
        → Scan (i * 8) e n (find_from n beyond rounds i list)
    unfolding find_from
    find_from-Scan zero i b e p s = inr (refl, full_none (i * 8) e (omega arith))
    find_from-Scan (suc rounds) i b e p s =
        step (Bool-cases (get_or list i beyond == 255))
          (rw next at (find_from-Scan rounds (i + 1) (i * 8 + 8) e (omega arith) (omega arith)))
      where
        next : (i + 1) * 8 ≡ i * 8 + 8
        next = omega arith

        step :
            ((get_or list i beyond == 255) ≡ true) ⊎ ((get_or list i beyond == 255) ≡ false)
            → Scan (i * 8 + 8) e n (find_from n beyond rounds (i + 1) list)
            → Scan (i * 8) e n (find_from n beyond (suc rounds) i list)
        step (inl full) ih = rw full (join_full i e _ ih (full_byte i ((==_iff _ _).0 full)))
        step (inr part) ih =
            rw part (join_part i e _ ih (find_in_byte-Scan 8 (i * 8) (i * 8 + 8) _ refl))

    -- The result is the first clear bit, or the number of bits if all are set, whatever byte
    -- `beyond` follows the array in memory.
    pub find_first_free_lem :
        let x = find_first_free n beyond list in
        (x ≤ n) × FullTo 0 x × (x < n → get_bit n x list ≡ false)
    unfolding find_first_free
    find_first_free_lem = finish (find_from-Scan (n / 8 + 1) 0 0 _ refl refl)
      where
        finish :
            {x : ℕ}
            → Scan (0 * 8) (0 * 8 + (n / 8 + 1) * 8) n x
            → (x ≤ n) × FullTo 0 x × (x < n → get_bit n x list ≡ false)
        finish (inl (a, b, f)) = (omega arith, f, λ _. b)
        finish (inr (a, f)) =
            (omega arith, (λ k lo hi lt. f k lo (omega arith) lt), λ h. absurd (omega arith))
