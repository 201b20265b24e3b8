-- ===== src/Btree/Lists.antt =====
-- The sorted list of numbers with inodes: what each of its operations leaves to find.
use paffs.Prelude.{
  ℕ, zero, subst, ℕ_discrete, suc, ◌+◌, ◌≤◌, ◌<◌, ◌≡◌, refl, List, [], ◌∷◌, none, some, arith, ltb,
  ◌==◌, if◌then◌else◌, if-elim, ltb→lt, get_or, table, insert_at, remove_at,
}
use paffs.Types.{Inode}
use paffs.Btree.{IsAbove, IsSorted, lookup, insert_sorted, erase}
use paffs.Btree.Leaves.{insertion_point, key_index}

IsAbove-weaken : (m n : ℕ) (es : List (ℕ × Inode)) → m ≤ n → IsAbove n es → IsAbove m es
unfolding IsAbove
IsAbove-weaken m n [] h above = tt
IsAbove-weaken m n (e ∷ es) h above = (omega (arith, above.0), above.1)

pub IsAbove-IsSorted : (n : ℕ) (es : List (ℕ × Inode)) → IsAbove n es → IsSorted es
unfolding IsAbove IsSorted
IsAbove-IsSorted n [] above = tt
IsAbove-IsSorted n (e ∷ es) above = above.1

pub lookup-above :
    (key n : ℕ) (es : List (ℕ × Inode)) → key ≤ n → IsAbove n es → lookup key es ≡ none
unfolding IsAbove lookup
lookup-above key n [] h above = refl
lookup-above key n (e ∷ es) h above =
    ground (arith, above.0, lookup-above key e.0 es (omega (arith, above.0)) above.1)

pub lookup-insert_sorted :
    (key : ℕ) (x : ℕ × Inode) (es : List (ℕ × Inode))
    → lookup key (insert_sorted x es) ≡ (if x.0 == key then some x.1 else lookup key es)
unfolding lookup insert_sorted
lookup-insert_sorted key x [] = refl
lookup-insert_sorted key x (e ∷ es) = ground (arith, lookup-insert_sorted key x es)

pub lookup-erase :
    (key k : ℕ) (es : List (ℕ × Inode))
    → IsSorted es
    → lookup k (erase key es) ≡ (if k == key then none else lookup k es)
unfolding lookup erase IsSorted IsAbove
lookup-erase key k [] sorted = ground arith
lookup-erase key k (e ∷ es) sorted =
    let sorted_tail : IsSorted es = IsAbove-IsSorted e.0 es sorted in
    let here : key ≡ e.0 → k ≡ key → lookup k es ≡ none =
      λ a b. lookup-above k e.0 es (omega arith) sorted in
    ground (arith, lookup-erase key k es sorted_tail, here)

insert_sorted-IsAbove :
    (n : ℕ) (x : ℕ × Inode) (es : List (ℕ × Inode))
    → n < x.0
    → lookup x.0 es ≡ none
    → IsAbove n es
    → IsAbove n (insert_sorted x es)
unfolding IsAbove lookup insert_sorted
insert_sorted-IsAbove n x [] h new above = (h, tt)
insert_sorted-IsAbove n x (e ∷ es) h new above =
    if-elim (IsAbove n) (ltb e.0 x.0) (e ∷ insert_sorted x es) (x ∷ e ∷ es)
      (λ t. (above.0, insert_sorted-IsAbove e.0 x es (ltb→lt e.0 x.0 t) (ground arith) above.1))
      (λ f. (h, (ground arith, above.1)))

pub insert_sorted-IsSorted :
    (x : ℕ × Inode) (es : List (ℕ × Inode))
    → lookup x.0 es ≡ none
    → IsSorted es
    → IsSorted (insert_sorted x es)
unfolding IsSorted lookup insert_sorted IsAbove
insert_sorted-IsSorted x [] new sorted = tt
insert_sorted-IsSorted x (e ∷ es) new sorted =
    if-elim IsSorted (ltb e.0 x.0) (e ∷ insert_sorted x es) (x ∷ e ∷ es)
      (λ t. insert_sorted-IsAbove e.0 x es (ltb→lt e.0 x.0 t) (ground arith) sorted)
      (λ f. (ground arith, sorted))

pub erase-IsAbove : (n key : ℕ) (es : List (ℕ × Inode)) → IsAbove n es → IsAbove n (erase key es)
unfolding IsAbove erase
erase-IsAbove n key [] above = tt
erase-IsAbove n key (e ∷ es) above =
    if-elim (IsAbove n) (e.0 == key) es (e ∷ erase key es)
      (λ t. IsAbove-weaken n e.0 es (omega (arith, above.0)) above.1)
      (λ f. (above.0, erase-IsAbove e.0 key es above.1))

pub erase-IsSorted : (key : ℕ) (es : List (ℕ × Inode)) → IsSorted es → IsSorted (erase key es)
unfolding IsSorted erase IsAbove
erase-IsSorted key [] sorted = tt
erase-IsSorted key (e ∷ es) sorted =
    if-elim IsSorted (e.0 == key) es (e ∷ erase key es) (λ t. IsAbove-IsSorted e.0 es sorted)
      (λ f. erase-IsAbove e.0 key es sorted)

-- The array's loops, on a table.
module _ (keys : List ℕ) (value : ℕ → Inode) where
  abbrev pub row : ℕ → ℕ × Inode
  row i = (get_or keys i 0, value i)

  pub insertion_point_bounds :
      (key r i : ℕ) → (i ≤ insertion_point r i keys key) × (insertion_point r i keys key ≤ i + r)
  unfolding insertion_point
  insertion_point_bounds key zero i = (omega arith, omega arith)
  insertion_point_bounds key (suc r) i = ground (arith, insertion_point_bounds key r (i + 1))

  pub key_index_bounds :
      (key r i : ℕ) → (i ≤ key_index r i keys key) × (key_index r i keys key ≤ i + r)
  unfolding key_index
  key_index_bounds key zero i = (omega arith, omega arith)
  key_index_bounds key (suc r) i = ground (arith, key_index_bounds key r (i + 1))

  pub insert_sorted-table :
      (x : ℕ × Inode) (r i p : ℕ)
      → i + p ≡ insertion_point r i keys x.0
      → insert_sorted x (table r i row) ≡ insert_at p x (table r i row)
  unfolding insert_sorted table insert_at insertion_point
  insert_sorted-table x zero i zero h = refl
  insert_sorted-table x zero i (suc p) h = absurd (omega arith)
  insert_sorted-table x (suc r) i zero h = ground (arith, insertion_point_bounds x.0 r (i + 1))
  insert_sorted-table x (suc r) i (suc p) h = ground (arith, insert_sorted-table x r (i + 1) p)

  pub erase-table :
      (key r i p : ℕ)
      → i + p ≡ key_index r i keys key
      → erase key (table r i row) ≡ remove_at p (table r i row)
  unfolding erase table remove_at key_index
  erase-table key zero i p h = refl
  erase-table key (suc r) i zero h = ground (arith, key_index_bounds key r (i + 1))
  erase-table key (suc r) i (suc p) h = ground (arith, erase-table key r (i + 1) p)

  pub lookup-table :
      (key r i : ℕ)
      → lookup key (table r i row)
        ≡ (if key_index r i keys key == i + r then none else some (value (key_index r i keys key)))
  unfolding lookup table key_index
  lookup-table key zero i = ground arith
  lookup-table key (suc r) i =
      ground (arith, lookup-table key r (i + 1), key_index_bounds key r (i + 1))

  pub key_index_found :
      (key r i : ℕ) → key_index r i keys key < i + r → get_or keys (key_index r i keys key) 0 ≡ key
  unfolding key_index
  key_index_found key zero i h = absurd (omega arith)
  key_index_found key (suc r) i h = ground (arith, key_index_found key r (i + 1))

  IsAbove-row : (m r i j : ℕ) → IsAbove m (table r i row) → i ≤ j → j < i + r → m < get_or keys j 0
  unfolding IsAbove table
  IsAbove-row m zero i j above le lt = absurd (omega arith)
  IsAbove-row m (suc r) i j above le lt = elim (ℕ_discrete i j) [
    | yes e ↦ subst (λ k. m < get_or keys k 0) e above.0
    | no ne ↦ omega (
      arith,
      above.0,
      IsAbove-row (get_or keys i 0) r (i + 1) j above.1 (omega arith) (omega arith),
    )
  ]

  -- Sorted entries have sorted keys.
  pub IsSorted-row :
      (r i a b : ℕ)
      → IsSorted (table r i row)
      → i ≤ a
      → a < b
      → b < i + r
      → get_or keys a 0 < get_or keys b 0
  unfolding IsSorted table
  IsSorted-row zero i a b sorted le lt h = absurd (omega arith)
  IsSorted-row (suc r) i a b sorted le lt h = elim (ℕ_discrete i a) [
    | yes e ↦
        subst (λ k. get_or keys k 0 < get_or keys b 0) e
          (IsAbove-row (get_or keys i 0) r (i + 1) b sorted (omega arith) (omega arith))
    | no ne ↦
        IsSorted-row r (i + 1) a b (IsAbove-IsSorted _ _ sorted) (omega arith) lt (omega arith)
  ]
