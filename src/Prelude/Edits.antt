-- ===== src/Prelude/Edits.antt =====
-- Lists edited at an index, cell by cell.
use Prim.Native.Nat.{ℕ, zero, suc, ◌+◌, ◌-◌, ◌≤◌, ◌<◌}
use mathlib.Core.Path.{◌≡◌, refl}
use mathlib.Core.List.{List, [], ◌∷◌, ◌++◌}
use native.Mathlib.Omega.{arith}
use paffs.Prelude.Tests.{ltb, ◌==◌, if◌then◌else◌}
use paffs.Prelude.Lists.{length, get_or}

module _ {A : Type 0} where
  -- In front of the cell `i`, or at the end.
  unfoldable pub insert_at : ℕ → A → List A → List A
  insert_at zero v xs = v ∷ xs
  insert_at (suc i) v [] = v ∷ []
  insert_at (suc i) v (x ∷ xs) = x ∷ insert_at i v xs

  unfoldable pub remove_at : ℕ → List A → List A
  remove_at i [] = []
  remove_at zero (x ∷ xs) = xs
  remove_at (suc i) (x ∷ xs) = x ∷ remove_at i xs

  -- Lists of the same length with the same cells are equal.
  pub list_ext :
      (d : A) (xs ys : List A)
      → length xs ≡ length ys
      → ((j : ℕ) → j < length xs → get_or xs j d ≡ get_or ys j d)
      → xs ≡ ys
  list_ext d [] [] h cells = refl
  list_ext d [] (y ∷ ys) h cells = absurd (omega arith)
  list_ext d (x ∷ xs) [] h cells = absurd (omega arith)
  list_ext d (x ∷ xs) (y ∷ ys) h cells =
      let same_head : x ≡ y = cells 0 (omega arith) in
      let same_tail : xs ≡ ys =
        list_ext d xs ys (omega arith) (λ j lt. cells (suc j) (omega arith)) in
      cc

  pub length-insert_at : (i : ℕ) (v : A) (xs : List A) → length (insert_at i v xs) ≡ length xs + 1
  unfolding insert_at
  length-insert_at zero v xs = omega arith
  length-insert_at (suc i) v [] = omega arith
  length-insert_at (suc i) v (x ∷ xs) = omega (arith, length-insert_at i v xs)

  pub length-remove_at :
      (i : ℕ) (xs : List A) → i < length xs → length (remove_at i xs) + 1 ≡ length xs
  unfolding remove_at
  length-remove_at i [] h = absurd (omega arith)
  length-remove_at zero (x ∷ xs) h = omega arith
  length-remove_at (suc i) (x ∷ xs) h = omega (arith, length-remove_at i xs)

  pub get_or-insert_at :
      (d : A) (i : ℕ) (v : A) (xs : List A) (j : ℕ)
      → i ≤ length xs
      → get_or (insert_at i v xs) j d
        ≡ (if ltb j i then get_or xs j d else if j == i then v else get_or xs (j - 1) d)
  unfolding insert_at
  get_or-insert_at d zero v xs zero h = ground arith
  get_or-insert_at d zero v xs (suc j) h = ground arith
  get_or-insert_at d (suc i) v [] j h = absurd (omega arith)
  get_or-insert_at d (suc i) v (x ∷ xs) zero h = ground arith
  get_or-insert_at d (suc i) v (x ∷ xs) (suc zero) h =
      ground (arith, get_or-insert_at d i v xs zero)
  get_or-insert_at d (suc i) v (x ∷ xs) (suc (suc j)) h =
      ground (arith, get_or-insert_at d i v xs (suc j))

  pub get_or-remove_at :
      (d : A) (i : ℕ) (xs : List A) (j : ℕ)
      → get_or (remove_at i xs) j d ≡ (if ltb j i then get_or xs j d else get_or xs (j + 1) d)
  unfolding remove_at
  get_or-remove_at d i [] j = ground arith
  get_or-remove_at d zero (x ∷ xs) j = ground arith
  get_or-remove_at d (suc i) (x ∷ xs) zero = ground arith
  get_or-remove_at d (suc i) (x ∷ xs) (suc j) = ground (arith, get_or-remove_at d i xs j)

  pub get_or-append :
      (d : A) (xs ys : List A) (j : ℕ)
      → get_or (xs ++ ys) j d
        ≡ (if ltb j (length xs) then get_or xs j d else get_or ys (j - length xs) d)
  get_or-append d [] ys j = ground arith
  get_or-append d (x ∷ xs) ys zero = ground arith
  get_or-append d (x ∷ xs) ys (suc j) = ground (arith, get_or-append d xs ys j)
