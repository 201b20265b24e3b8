-- ===== src/Prelude/Arrays.antt =====
-- Loops that move the cells of an array, each with what it leaves in every cell.
use Prim.Native.Nat.{ℕ, zero, suc, ◌+◌, ◌-◌, ◌≤◌, ◌<◌}
use mathlib.Core.Path.{◌≡◌, refl, ◌∙◌}
use mathlib.Core.Bool.{◌&&◌, ◌||◌}
use mathlib.Core.List.{List}
use native.Mathlib.Omega.{arith}
use native.Mathlib.Decide.{ℕ_discrete}
use paffs.Prelude.Tests.{ltb, leb, ◌==◌, if◌then◌else◌}
use paffs.Prelude.Lists.{
  length, replicate, length-replicate, get_or, set, length-set, get_or-set_self, get_or-set_ne,
}

module _ {A : Type 0} (d : A) where
  -- `for (i = n; ...; i--) a[i] = a[i - 1]`, for so many rounds.
  unfoldable pub shift_up : ℕ → ℕ → List A → List A
  shift_up zero i a = a
  shift_up (suc rounds) i a = shift_up rounds (i - 1) (set a i (get_or a (i - 1) d))

  -- `for (i = n; ...; i++) a[i - 1] = a[i]`
  unfoldable pub shift_down : ℕ → ℕ → List A → List A
  shift_down zero i a = a
  shift_down (suc rounds) i a = shift_down rounds (i + 1) (set a (i - 1) (get_or a i d))

  -- `for (...; i++, j++) to[j] = from[i]`
  unfoldable pub copy : ℕ → ℕ → ℕ → List A → List A → List A
  copy zero i j from to = to
  copy (suc rounds) i j from to = copy rounds (i + 1) (j + 1) from (set to j (get_or from i d))

  -- The same, but `j` skips one place.
  unfoldable pub spread : ℕ → ℕ → ℕ → ℕ → List A → List A → List A
  spread zero skip i j from to = to
  spread (suc rounds) skip i j from to =
      let k : ℕ = if j == skip then j + 1 else j in
      spread rounds skip (i + 1) (k + 1) from (set to k (get_or from i d))

  -- `for (...; i++) a[i] = v`
  unfoldable pub fill : ℕ → ℕ → A → List A → List A
  fill zero i v a = a
  fill (suc rounds) i v a = fill rounds (i + 1) v (set a i v)

  pub get_or-set :
      (a : List A) (i j : ℕ) (v : A)
      → i < length a
      → get_or (set a i v) j d ≡ (if i == j then v else get_or a j d)
  get_or-set a i j v h = elim (ℕ_discrete i j) [
    | yes e ↦ ground (arith, get_or-set_self a i v d h, e)
    | no ne ↦ ground (arith, get_or-set_ne a i j v d ne)
  ]

  pub length-shift_up : (r i : ℕ) (a : List A) → length (shift_up r i a) ≡ length a
  unfolding shift_up
  length-shift_up zero i a = refl
  length-shift_up (suc r) i a = length-shift_up r (i - 1) _ ∙ length-set a i _

  pub length-shift_down : (r i : ℕ) (a : List A) → length (shift_down r i a) ≡ length a
  unfolding shift_down
  length-shift_down zero i a = refl
  length-shift_down (suc r) i a = length-shift_down r (i + 1) _ ∙ length-set a (i - 1) _

  pub length-copy : (r i j : ℕ) (from to : List A) → length (copy r i j from to) ≡ length to
  unfolding copy
  length-copy zero i j from to = refl
  length-copy (suc r) i j from to = length-copy r (i + 1) (j + 1) from _ ∙ length-set to j _

  pub length-fill : (r i : ℕ) (v : A) (a : List A) → length (fill r i v a) ≡ length a
  unfolding fill
  length-fill zero i v a = refl
  length-fill (suc r) i v a = length-fill r (i + 1) v _ ∙ length-set a i v

  pub get_or-shift_up :
      (r i : ℕ) (a : List A) (j : ℕ)
      → r ≤ i
      → i < length a
      → get_or (shift_up r i a) j d
        ≡ (if ltb (i - r) j && leb j i then get_or a (j - 1) d else get_or a j d)
  unfolding shift_up
  get_or-shift_up zero i a j h lt = ground arith
  get_or-shift_up (suc r) i a j h lt = ground (
    arith,
    length-set a i (get_or a (i - 1) d),
    get_or-shift_up r (i - 1) (set a i (get_or a (i - 1) d)) j,
    get_or-set a i j (get_or a (i - 1) d) lt,
    get_or-set a i (j - 1) (get_or a (i - 1) d) lt,
  )

  pub get_or-shift_down :
      (r i : ℕ) (a : List A) (j : ℕ)
      → 0 < i
      → i + r ≤ length a
      → get_or (shift_down r i a) j d
        ≡ (if leb i (j + 1) && ltb (j + 1) (i + r) then get_or a (j + 1) d else get_or a j d)
  unfolding shift_down
  get_or-shift_down zero i a j h lt = ground arith
  get_or-shift_down (suc r) i a j h lt = ground (
    arith,
    length-set a (i - 1) (get_or a i d),
    get_or-shift_down r (i + 1) (set a (i - 1) (get_or a i d)) j,
    get_or-set a (i - 1) j (get_or a i d),
    get_or-set a (i - 1) (j + 1) (get_or a i d),
  )

  pub get_or-copy :
      (r i j : ℕ) (from to : List A) (k : ℕ)
      → j + r ≤ length to
      → get_or (copy r i j from to) k d
        ≡ (if leb j k && ltb k (j + r) then get_or from (i + k - j) d else get_or to k d)
  unfolding copy
  get_or-copy zero i j from to k h = ground arith
  get_or-copy (suc r) i j from to k h = ground (
    arith,
    length-set to j (get_or from i d),
    get_or-copy r (i + 1) (j + 1) from (set to j (get_or from i d)) k,
    get_or-set to j k (get_or from i d),
  )

  pub get_or-fill :
      (r i : ℕ) (v : A) (a : List A) (k : ℕ)
      → i + r ≤ length a
      → get_or (fill r i v a) k d ≡ (if leb i k && ltb k (i + r) then v else get_or a k d)
  unfolding fill
  get_or-fill zero i v a k h = ground arith
  get_or-fill (suc r) i v a k h =
      ground (arith, length-set a i v, get_or-fill r (i + 1) v (set a i v) k, get_or-set a i k v)

  pub length-spread :
      (r skip i j : ℕ) (from to : List A) → length (spread r skip i j from to) ≡ length to
  unfolding spread
  length-spread zero skip i j from to = refl
  length-spread (suc r) skip i j from to =
      length-spread r skip (i + 1) _ from _ ∙ length-set to _ (get_or from i d)

  -- Behind the skipped place, it is a copy.
  spread-copy :
      (r skip i j : ℕ) (from to : List A)
      → skip < j
      → spread r skip i j from to ≡ copy r i j from to
  unfolding spread copy
  spread-copy zero skip i j from to h = refl
  spread-copy (suc r) skip i j from to h =
      ground (arith, spread-copy r skip (i + 1) (j + 1) from (set to j (get_or from i d)))

  pub get_or-spread :
      (r skip i j : ℕ) (from to : List A) (k : ℕ)
      → j ≤ skip
      → skip ≤ j + r
      → j + r < length to
      → get_or (spread r skip i j from to) k d ≡ (
          if ltb k j || k == skip || ltb (j + r) k
          then get_or to k d
          else if ltb k skip
          then get_or from (i + k - j) d
          else get_or from (i + k - j - 1) d)
  unfolding spread
  get_or-spread zero skip i j from to k le ge lt = ground arith
  get_or-spread (suc r) skip i j from to k le ge lt = elim (ℕ_discrete j skip) [
    | yes e ↦ ground (
      arith,
      length-set to (j + 1) (get_or from i d),
      spread-copy r skip (i + 1) (j + 2) from (set to (j + 1) (get_or from i d)),
      get_or-copy r (i + 1) (j + 2) from (set to (j + 1) (get_or from i d)) k,
      get_or-set to (j + 1) k (get_or from i d),
    )
    | no ne ↦ ground (
      arith,
      length-set to j (get_or from i d),
      get_or-spread r skip (i + 1) (j + 1) from (set to j (get_or from i d)) k,
      get_or-set to j k (get_or from i d),
    )
  ]

  -- Room is made at `p`, and the place is filled.
  pub get_or-insert :
      (a : List A) (n p : ℕ) (v : A) (j : ℕ)
      → p ≤ n
      → n < length a
      → j < n + 1
      → get_or (set (shift_up (n - p) n a) p v) j d
        ≡ (if ltb j p then get_or a j d else if j == p then v else get_or a (j - 1) d)
  get_or-insert a n p v j le lt in_use = ground (
    arith,
    length-shift_up (n - p) n a,
    get_or-set (shift_up (n - p) n a) p j v,
    get_or-shift_up (n - p) n a j,
  )

  -- The same into another array.
  pub get_or-spread_insert :
      (a : List A) (n p : ℕ) (v : A) (j : ℕ)
      → p ≤ n
      → j < n + 1
      → get_or (set (spread n p 0 0 a (replicate (n + 1) d)) p v) j d
        ≡ (if ltb j p then get_or a j d else if j == p then v else get_or a (j - 1) d)
  get_or-spread_insert a n p v j le lt = ground (
    arith,
    length-spread n p 0 0 a (replicate (n + 1) d),
    length-replicate (n + 1) d,
    get_or-set (spread n p 0 0 a (replicate (n + 1) d)) p j v,
    get_or-spread n p 0 0 a (replicate (n + 1) d) j,
  )

  -- A stretch copied to the front, and the rest overwritten.
  pub get_or-copy-fill :
      (from to : List A) (n i order : ℕ) (v : A) (j : ℕ)
      → length to ≡ order
      → n ≤ order
      → j < n
      → get_or (fill (order - n) n v (copy n i 0 from to)) j d ≡ get_or from (i + j) d
  get_or-copy-fill from to n i order v j len le lt = ground (
    arith,
    length-copy n i 0 from to,
    get_or-fill (order - n) n v (copy n i 0 from to) j,
    get_or-copy n i 0 from to j,
  )

  pub length-copy-fill :
      (from to : List A) (n i order : ℕ) (v : A)
      → length to ≡ order
      → length (fill (order - n) n v (copy n i 0 from to)) ≡ order
  length-copy-fill from to n i order v len =
      length-fill (order - n) n v _ ∙ length-copy n i 0 from to ∙ len

  -- The cell `i` closed up, and the rest overwritten.
  pub get_or-remove :
      (a : List A) (n i order : ℕ) (v : A) (j : ℕ)
      → length a ≡ order
      → i < n
      → n ≤ order
      → j + 1 < n
      → get_or (fill (order - (n - 1)) (n - 1) v (shift_down (n - (i + 1)) (i + 1) a)) j d
        ≡ (if ltb j i then get_or a j d else get_or a (j + 1) d)
  get_or-remove a n i order v j len in_use le lt = ground (
    arith,
    length-shift_down (n - (i + 1)) (i + 1) a,
    get_or-fill (order - (n - 1)) (n - 1) v (shift_down (n - (i + 1)) (i + 1) a) j,
    get_or-shift_down (n - (i + 1)) (i + 1) a j,
  )
