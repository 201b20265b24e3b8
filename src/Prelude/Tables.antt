-- ===== src/Prelude/Tables.antt =====
-- The list of the values that a function takes on `r` numbers from `i` on.
use Prim.Native.Nat.{ℕ, zero, suc, ◌+◌, ◌-◌, ◌<◌, ◌≤◌}
use mathlib.Core.Path.{◌≡◌, refl}
use mathlib.Core.List.{List, [], ◌∷◌, ◌++◌}
use native.Mathlib.Omega.{arith}
use paffs.Prelude.Tests.{ltb, ◌==◌, if◌then◌else◌}
use paffs.Prelude.Lists.{length, get_or, length-append}
use paffs.Prelude.Edits.{
  list_ext, insert_at, remove_at, length-insert_at, length-remove_at, get_or-insert_at,
  get_or-remove_at, get_or-append,
}

module _ {A : Type 0} where
  unfoldable pub table : ℕ → ℕ → (ℕ → A) → List A
  table zero i f = []
  table (suc r) i f = f i ∷ table r (i + 1) f

  pub length-table : (r i : ℕ) (f : ℕ → A) → length (table r i f) ≡ r
  unfolding table
  length-table zero i f = refl
  length-table (suc r) i f = omega (arith, length-table r (i + 1) f)

  pub get_or-table :
      (d : A) (r i : ℕ) (f : ℕ → A) (j : ℕ) → j < r → get_or (table r i f) j d ≡ f (i + j)
  unfolding table
  get_or-table d zero i f j h = absurd (omega arith)
  get_or-table d (suc r) i f zero h = ground arith
  get_or-table d (suc r) i f (suc j) h = ground (arith, get_or-table d r (i + 1) f j)

  pub table_congr :
      (r i : ℕ) (f g : ℕ → A)
      → ((j : ℕ) → i ≤ j → j < i + r → f j ≡ g j)
      → table r i f ≡ table r i g
  unfolding table
  table_congr zero i f g h = refl
  table_congr (suc r) i f g h =
      let heads : f i ≡ g i = h i (omega arith) (omega arith) in
      let tails : table r (i + 1) f ≡ table r (i + 1) g =
        table_congr r (i + 1) f g (λ j le lt. h j (omega arith) (omega arith)) in
      cc

  -- A table one longer, whose cells behind `p` are those of the old one moved up.
  pub table-insert :
      (d : A) (n p : ℕ) (v : A) (f g : ℕ → A)
      → p ≤ n
      → ((j : ℕ) → j < n + 1 → g j ≡ (if ltb j p then f j else if j == p then v else f (j - 1)))
      → table (n + 1) 0 g ≡ insert_at p v (table n 0 f)
  table-insert d n p v f g le cells =
      list_ext d _ _
        (omega
          (arith, length-table (n + 1) 0 g, length-insert_at p v (table n 0 f), length-table n 0 f))
        (λ j lt. ground (
          arith,
          length-table (n + 1) 0 g,
          length-table n 0 f,
          get_or-table d (n + 1) 0 g j,
          get_or-insert_at d p v (table n 0 f) j,
          get_or-table d n 0 f j,
          get_or-table d n 0 f (j - 1),
          cells j,
        ))

  pub table-remove :
      (d : A) (n p : ℕ) (f g : ℕ → A)
      → p ≤ n
      → ((j : ℕ) → j < n → g j ≡ (if ltb j p then f j else f (j + 1)))
      → table n 0 g ≡ remove_at p (table (n + 1) 0 f)
  table-remove d n p f g le cells =
      list_ext d _ _
        (omega (
          arith,
          length-table n 0 g,
          length-remove_at p (table (n + 1) 0 f),
          length-table (n + 1) 0 f,
        ))
        (λ j lt. ground (
          arith,
          length-table n 0 g,
          get_or-table d n 0 g j,
          get_or-remove_at d p (table (n + 1) 0 f) j,
          get_or-table d (n + 1) 0 f j,
          get_or-table d (n + 1) 0 f (j + 1),
          cells j,
        ))

  pub table-append :
      (d : A) (m n : ℕ) (f g h : ℕ → A)
      → ((j : ℕ) → j < m + n → h j ≡ (if ltb j m then f j else g (j - m)))
      → table (m + n) 0 h ≡ table m 0 f ++ table n 0 g
  table-append d m n f g h cells =
      list_ext d _ _
        (omega (
          arith,
          length-table (m + n) 0 h,
          length-append (table m 0 f) (table n 0 g),
          length-table m 0 f,
          length-table n 0 g,
        ))
        (λ j lt. ground (
          arith,
          length-table (m + n) 0 h,
          length-table m 0 f,
          get_or-table d (m + n) 0 h j,
          get_or-append d (table m 0 f) (table n 0 g) j,
          get_or-table d m 0 f j,
          get_or-table d n 0 g (j - m),
          cells j,
        ))
