-- ===== src/Prelude/Cells.antt =====
-- The cells of an array in a range, as a list, and what the loops on the array do to that list.
use Prim.Native.Nat.{ℕ, zero, suc, ◌+◌, ◌-◌, ◌<◌, ◌≤◌}
use mathlib.Core.Path.{◌≡◌, refl, sym, ap, ◌∙◌}
use mathlib.Core.List.{List, [], ◌∷◌, ◌++◌}
use native.Mathlib.Omega.{arith}
use paffs.Prelude.Lists.{length, get_or, set, replicate, get_or-set_self, get_or-set_ne}
use paffs.Prelude.Edits.{insert_at, remove_at}
use paffs.Prelude.Tables.{table, table-insert, table-remove, table-append}
use paffs.Prelude.Arrays.{
  shift_up, shift_down, copy, spread, fill, get_or-insert, get_or-spread_insert, get_or-copy,
  get_or-fill, get_or-shift_down,
}

module _ {A : Type 0} where
  pub table_shift :
      (r i k : ℕ) (f g : ℕ → A)
      → ((j : ℕ) → j < r → f (i + j) ≡ g (k + j))
      → table r i f ≡ table r k g
  unfolding table
  table_shift zero i k f g h = refl
  table_shift (suc r) i k f g h =
      let at_head : f (i + 0) ≡ g (k + 0) = h 0 (omega arith) in
      let left_zero : i + 0 ≡ i = omega arith in
      let right_zero : k + 0 ≡ k = omega arith in
      let tails : table r (i + 1) f ≡ table r (k + 1) g = table_shift r (i + 1) (k + 1) f g (λ j lt.
        let e : i + 1 + j ≡ i + suc j = omega arith in
        let e' : k + 1 + j ≡ k + suc j = omega arith in
        ap f e ∙ h (suc j) (omega arith) ∙ sym (ap g e')) in
      cc

  pub table-parts : (m n i : ℕ) (f : ℕ → A) → table (m + n) i f ≡ table m i f ++ table n (i + m) f
  unfolding table
  table-parts zero n i f =
      let none_left : 0 + n ≡ n = omega arith in let same_start : i + 0 ≡ i = omega arith in cc
  table-parts (suc m) n i f =
      let one_more : suc m + n ≡ suc (m + n) = omega arith in
      let same_start : i + 1 + m ≡ i + suc m = omega arith in
      ap (λ k. table k i f) one_more
      ∙ ap (◌∷◌ (f i))
          (table-parts m n (i + 1) f ∙ ap (λ k. table m (i + 1) f ++ table n k f) same_start)

module _ {A : Type 0} (d : A) where
  unfoldable pub cells : ℕ → ℕ → List A → List A
  cells r i a = table r i (λ j. get_or a j d)

  pub cells-insert :
      (a : List A) (n p : ℕ) (v : A)
      → p ≤ n
      → n < length a
      → cells (n + 1) 0 (set (shift_up d (n - p) n a) p v) ≡ insert_at p v (cells n 0 a)
  unfolding cells
  cells-insert a n p v le lt =
      table-insert d n p v _ _ le (λ j in_use. get_or-insert d a n p v j le lt in_use)

  pub cells-spread_insert :
      (a : List A) (n p : ℕ) (v : A)
      → p ≤ n
      → cells (n + 1) 0 (set (spread d n p 0 0 a (replicate (n + 1) d)) p v)
        ≡ insert_at p v (cells n 0 a)
  unfolding cells
  cells-spread_insert a n p v le =
      table-insert d n p v _ _ le (λ j in_use. get_or-spread_insert d a n p v j le in_use)

  pub cells-copy :
      (from to : List A) (n i j order : ℕ)
      → length to ≡ order
      → j + n ≤ order
      → cells n j (copy d n i j from to) ≡ cells n i from
  unfolding cells
  cells-copy from to n i j order len le =
      table_shift n j i _ _ (λ k lt. ground (arith, get_or-copy d n i j from to (j + k)))

  pub cells-append :
      (from to : List A) (m n : ℕ)
      → m + n ≤ length to
      → cells (m + n) 0 (copy d n 0 m from to) ≡ cells m 0 to ++ cells n 0 from
  unfolding cells
  cells-append from to m n le =
      table-append d m n _ _ _ (λ j lt. ground (arith, get_or-copy d n 0 m from to j))

  pub cells-fill :
      (a : List A) (n i r k : ℕ) (v : A)
      → i + n ≤ k
      → k + r ≤ length a
      → cells n i (fill d r k v a) ≡ cells n i a
  unfolding cells
  cells-fill a n i r k v before le =
      table_shift n i i _ _ (λ j lt. ground (arith, get_or-fill d r k v a (i + j)))

  -- The cell `i` of `n + 1` closed up.
  pub cells-remove :
      (a : List A) (n i : ℕ)
      → i ≤ n
      → n < length a
      → cells n 0 (shift_down d (n - i) (i + 1) a) ≡ remove_at i (cells (n + 1) 0 a)
  unfolding cells
  cells-remove a n i le lt =
      table-remove d n i _ _ le
        (λ j in_use. ground (arith, get_or-shift_down d (n - i) (i + 1) a j))

  -- A write behind the cells.
  pub cells-set : (a : List A) (n i k : ℕ) (v : A) → i + n ≤ k → cells n i (set a k v) ≡ cells n i a
  unfolding cells
  cells-set a n i k v le =
      table_shift n i i _ _ (λ j lt. get_or-set_ne a k (i + j) v d (λ e. absurd (omega arith)))

  pub cells-last :
      (a : List A) (n i : ℕ) → cells (n + 1) i a ≡ cells n i a ++ (get_or a (i + n) d ∷ [])
  unfolding cells table
  cells-last a n i = table-parts n 1 i (λ j. get_or a j d)

  pub cells-set_last :
      (a : List A) (n : ℕ) (v : A)
      → n < length a
      → cells (n + 1) 0 (set a n v) ≡ cells n 0 a ++ (v ∷ [])
  cells-set_last a n v lt =
      let zero_plus : 0 + n ≡ n = omega arith in
      let written : get_or (set a n v) n d ≡ v = get_or-set_self a n v d lt in
      cells-last (set a n v) n 0
      ∙ ap (λ xs. xs ++ (get_or (set a n v) (0 + n) d ∷ [])) (cells-set a n 0 n v (omega arith))
      ∙ ap (λ x. cells n 0 a ++ (x ∷ [])) (ap (λ k. get_or (set a n v) k d) zero_plus ∙ written)

  pub cells-front :
      (a : List A) (n : ℕ) (v : A)
      → n < length a
      → cells (n + 1) 0 (set (shift_up d n n a) 0 v) ≡ v ∷ cells n 0 a
  unfolding insert_at
  cells-front a n v lt =
      let whole : n - 0 ≡ n = omega arith in
      ap (λ k. cells (n + 1) 0 (set (shift_up d k n a) 0 v)) (sym whole)
      ∙ cells-insert a n 0 v (omega arith) lt

  pub cells-shift_down :
      (a : List A) (n : ℕ) → n < length a → cells n 0 (shift_down d n 1 a) ≡ cells n 1 a
  unfolding cells
  cells-shift_down a n lt =
      table_shift n 0 1 _ _ (λ j le. ground (arith, get_or-shift_down d n 1 a j))

  pub cells-first : (a : List A) (n : ℕ) → cells (n + 1) 0 a ≡ get_or a 0 d ∷ cells n 1 a
  unfolding cells table
  cells-first a n =
      let one_more : n + 1 ≡ suc n = omega arith in ap (λ k. table k 0 (λ j. get_or a j d)) one_more
