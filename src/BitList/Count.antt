-- ===== src/BitList/Count.antt =====
-- `BitList::countSetBits` follows the writes, and agrees with `findFirstFree`.
use paffs.Prelude.{
  ℕ, zero, suc, ◌+◌, ◌≤◌, ◌<◌, ◌≡◌, refl, true, false, List, ltb, leb, if◌then◌else◌, ◌&&◌, arith,
}
use native.Mathlib.Decide.{dec_lt}
use paffs.BitList.{set_bit, reset_bit, get_bit, count_from, count_set_bits, find_first_free}
use paffs.BitList.Laws.{IsBitList, get_bit-set_bit, get_bit-reset_bit}
use paffs.BitList.Search.{FullTo, find_first_free_lem}

module _ (n : ℕ) (i : ℕ) (list : List ℕ) (w : IsBitList n list) (h : i < n) where
  count_from-set_bit :
      (rounds j : ℕ)
      → get_bit n i list ≡ false
      → count_from n rounds j (set_bit n i list)
        ≡ count_from n rounds j list + (if leb j i && ltb i (j + rounds) then 1 else 0)
  unfolding count_from
  count_from-set_bit zero j c = ground arith
  count_from-set_bit (suc rounds) j c =
      ground (arith, count_from-set_bit rounds (j + 1) c, get_bit-set_bit n i list w j h)

  count_from-reset_bit :
      (rounds j : ℕ)
      → get_bit n i list ≡ true
      → count_from n rounds j (reset_bit n i list)
          + (if leb j i && ltb i (j + rounds) then 1 else 0)
        ≡ count_from n rounds j list
  unfolding count_from
  count_from-reset_bit zero j c = ground arith
  count_from-reset_bit (suc rounds) j c =
      ground (arith, count_from-reset_bit rounds (j + 1) c, get_bit-reset_bit n i list w j h)

  -- Setting a clear bit adds one to the count.
  pub count_set_bits-set_bit :
      get_bit n i list ≡ false → count_set_bits n (set_bit n i list) ≡ count_set_bits n list + 1
  unfolding count_set_bits
  count_set_bits-set_bit c = ground (arith, count_from-set_bit n 0 c)

  pub count_set_bits-reset_bit :
      get_bit n i list ≡ true → count_set_bits n (reset_bit n i list) + 1 ≡ count_set_bits n list
  unfolding count_set_bits
  count_set_bits-reset_bit c = ground (arith, count_from-reset_bit n 0 c)

module _ (n : ℕ) (list : List ℕ) where
  count_from-le : (rounds j : ℕ) → count_from n rounds j list ≤ rounds
  unfolding count_from
  count_from-le zero j = omega arith
  count_from-le (suc rounds) j = ground (arith, count_from-le rounds (j + 1))

  pub count_set_bits-le : count_set_bits n list ≤ n
  unfolding count_set_bits
  count_set_bits-le = count_from-le n 0

  count_from_full :
      (rounds j : ℕ) → j + rounds ≤ n → FullTo n list j n → count_from n rounds j list ≡ rounds
  unfolding count_from
  count_from_full zero j h f = refl
  count_from_full (suc rounds) j h f = ground (
    arith,
    count_from_full rounds (j + 1) (omega arith) (λ k lo hi lt. f k (omega arith) hi lt),
    f j (omega arith) (omega arith) (omega arith),
  )

  count_from_lt :
      (rounds j i : ℕ)
      → j ≤ i
      → i < j + rounds
      → get_bit n i list ≡ false
      → count_from n rounds j list < rounds
  unfolding count_from
  count_from_lt zero j i lo hi c = absurd (omega arith)
  count_from_lt (suc rounds) j i lo hi c =
      ground (arith, count_from_lt rounds (j + 1) i, count_from-le rounds (j + 1))

  -- There is a free bit exactly when not all bits are counted as set.
  pub find_first_free-lt_iff :
      IsBitList n list
      → (beyond : ℕ)
      → (find_first_free n beyond list < n → count_set_bits n list < n)
        × (count_set_bits n list < n → find_first_free n beyond list < n)
  unfolding count_set_bits
  find_first_free-lt_iff w beyond =
      let scan = find_first_free_lem n list w beyond in
      let x = find_first_free n beyond list in
      (
        λ h. count_from_lt n 0 x (omega arith) (omega arith) (scan.2 h),
        λ h. elim (dec_lt x n) [
          | yes p ↦ p
          | no p ↦
              let full : FullTo n list 0 n = λ k lo hi lt. scan.1 k lo (omega arith) lt in
              absurd (omega (arith, count_from_full n 0 (omega arith) full))
        ],
      )
