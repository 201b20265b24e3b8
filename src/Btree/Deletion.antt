-- ===== src/Btree/Deletion.antt =====
-- src/btree.cpp, `deleteEntry` on a leaf below the root and its neighbor: all its branches.
use paffs.Prelude.{
  ℕ, ◌+◌, ◌^◌, ◌≤◌, ◌<◌, ◌≡◌, ◌≢◌, refl, sym, ap, subst, ◌∙◌, Bool, true, false, List, [], ◌++◌,
  none, arith, leb, if◌then◌else◌, if-elim,
}
use paffs.Types.{Inode}
use paffs.Btree.{Leaf, entries, IsLeaf, IsSorted, lookup, erase, cut}
use paffs.Btree.Leaves.{coalesce_leaves, take_from_left, take_from_right}
use paffs.Btree.Remove.{
  closed_up, remove_from_leaf-found, entries-closed_up, closed_up-IsLeaf, closed_up-count,
}
use paffs.Btree.Split.{cut_bounds}
use paffs.Btree.Merge.{entries-coalesce_leaves, entries-take_from_left, entries-take_from_right}
use paffs.Btree.Steps.{Deleted, failed, kept, merged, redistributed, rebalance, delete_from_leaf}

-- The entries of the leaf and its neighbor, from left to right.
unfoldable pub in_order : Bool → Leaf → List (ℕ × Inode) → List (ℕ × Inode)
in_order is_leftmost neighbor es =
    if is_leftmost then es ++ entries neighbor else entries neighbor ++ es

unfoldable pub entries_left : Bool → Leaf → Deleted → List (ℕ × Inode)
entries_left is_leftmost neighbor (failed r) = []
entries_left is_leftmost neighbor (kept n) = in_order is_leftmost neighbor (entries n)
entries_left is_leftmost neighbor (merged a) = entries a
entries_left is_leftmost neighbor (redistributed s) = entries s.left ++ entries s.right

-- No leaf has more entries than it has cells, or fewer than the half.
unfoldable pub IsHalfFull : ℕ → Leaf → Type 0
IsHalfFull order l = (cut order ≤ l.count) × (l.count ≤ order)

unfoldable pub IsBalanced : ℕ → Deleted → Type 0
IsBalanced order (failed r) = ⊥
IsBalanced order (kept n) = IsHalfFull order n
IsBalanced order (merged a) = IsHalfFull order a
IsBalanced order (redistributed s) = IsHalfFull order s.left × IsHalfFull order s.right

module _ (order : ℕ) (neighbor n : Leaf) (some_order : 0 < order) where
  entries-rebalance :
      (is_leftmost : Bool)
      → IsLeaf order neighbor
      → IsLeaf order n
      → cut order ≤ neighbor.count
      → entries_left is_leftmost neighbor (rebalance order is_leftmost neighbor n)
        ≡ in_order is_leftmost neighbor (entries n)
  unfolding entries_left rebalance in_order
  entries-rebalance true whole leaf half =
      let P : Deleted → Type 0 =
        λ d. entries_left true neighbor d ≡ entries n ++ entries neighbor in
      if-elim P (leb (cut order) n.count) _ _ (λ t. refl)
        (λ low.
          if-elim P (leb (neighbor.count + n.count) order) _ _
            (λ fits. entries-coalesce_leaves order neighbor n leaf (ground arith))
            (λ full.
              entries-take_from_right order neighbor n whole leaf (ground (arith, cut_bounds order))
                (omega (arith, cut_bounds order))))
  entries-rebalance false whole leaf half =
      let P : Deleted → Type 0 =
        λ d. entries_left false neighbor d ≡ entries neighbor ++ entries n in
      if-elim P (leb (cut order) n.count) _ _ (λ t. refl)
        (λ low.
          if-elim P (leb (neighbor.count + n.count) order) _ _
            (λ fits. entries-coalesce_leaves order n neighbor whole (ground arith))
            (λ full.
              entries-take_from_left order neighbor n whole leaf (ground (arith, cut_bounds order))
                (omega (arith, cut_bounds order))))

  rebalance-IsBalanced :
      (is_leftmost : Bool)
      → IsHalfFull order neighbor
      → n.count ≤ order
      → cut order ≤ n.count + 1
      → IsBalanced order (rebalance order is_leftmost neighbor n)
  unfolding IsBalanced rebalance IsHalfFull coalesce_leaves take_from_left take_from_right
  rebalance-IsBalanced true half le above =
      let P : Deleted → Type 0 = IsBalanced order in
      if-elim P (leb (cut order) n.count) _ _ (λ t. (ground arith, le))
        (λ low.
          if-elim P (leb (neighbor.count + n.count) order) _ _
            (λ fits. (omega (arith, half), ground arith))
            (λ full. (
              (omega arith, ground (arith, cut_bounds order)),
              (ground (arith, cut_bounds order, half), omega (arith, half)),
            )))
  rebalance-IsBalanced false half le above =
      let P : Deleted → Type 0 = IsBalanced order in
      if-elim P (leb (cut order) n.count) _ _ (λ t. (ground arith, le))
        (λ low.
          if-elim P (leb (neighbor.count + n.count) order) _ _
            (λ fits. (omega (arith, half), ground arith))
            (λ full. (
              (ground (arith, cut_bounds order, half), omega (arith, half)),
              (omega arith, ground (arith, cut_bounds order)),
            )))

module _ (order : ℕ) (neighbor n : Leaf) (key : ℕ) (some_order : 0 < order) (leaf : IsLeaf order n)
    (u16_order : order < 2 ^ 16) (sorted : IsSorted (entries n))
    (found : lookup key (entries n) ≢ none) where
  delete-rebalance :
      (is_leftmost : Bool)
      → delete_from_leaf order is_leftmost neighbor n key
        ≡ rebalance order is_leftmost neighbor (closed_up order n key leaf u16_order sorted found)
  unfolding delete_from_leaf
  delete-rebalance is_leftmost =
      ground (arith, remove_from_leaf-found order n key leaf u16_order sorted found)

  -- The two leaves hold what they held, without the entry.
  pub entries_left-delete_from_leaf :
      (is_leftmost : Bool)
      → IsLeaf order neighbor
      → cut order ≤ neighbor.count
      → entries_left is_leftmost neighbor (delete_from_leaf order is_leftmost neighbor n key)
        ≡ in_order is_leftmost neighbor (erase key (entries n))
  entries_left-delete_from_leaf is_leftmost whole half =
      ap (entries_left is_leftmost neighbor) (delete-rebalance is_leftmost)
      ∙ entries-rebalance order neighbor _ some_order is_leftmost whole
          (closed_up-IsLeaf order n key leaf u16_order sorted found) half
      ∙ ap (in_order is_leftmost neighbor)
          (entries-closed_up order n key leaf u16_order sorted found)

  pub delete_from_leaf-IsBalanced :
      (is_leftmost : Bool)
      → IsHalfFull order neighbor
      → IsHalfFull order n
      → IsBalanced order (delete_from_leaf order is_leftmost neighbor n key)
  unfolding IsHalfFull
  delete_from_leaf-IsBalanced is_leftmost half low =
      subst (IsBalanced order) (sym (delete-rebalance is_leftmost)) (
        rebalance-IsBalanced order neighbor _ some_order is_leftmost half
          (omega (arith, low, closed_up-count order n key leaf u16_order sorted found))
          (omega (arith, low, closed_up-count order n key leaf u16_order sorted found)))
