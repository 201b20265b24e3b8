-- ===== src/Btree/Merge.antt =====
-- src/btree.cpp, `coalesceNodes` and `redistributeNodes` on the lists of entries of two leaves.
use paffs.Prelude.{
  ℕ, ◌+◌, ◌-◌, ◌≤◌, ◌<◌, ◌≡◌, refl, sym, ap, ◌∙◌, ◌++◌, arith, ltb, if◌then◌else◌, get_or, shift_up,
  length-copy, length-shift_up, get_or-set, get_or-copy, get_or-shift_up, get_or-shift_down, table,
  table_congr, table-append,
}
use paffs.Types.{Inode}
use paffs.Btree.{no_entry, Leaf, entry, entries, no_inode, IsLeaf}
use paffs.Btree.Leaves.{coalesce_leaves, take_from_left, take_from_right}

-- The entries of two leaves, one after the other.
unfoldable both : Leaf → Leaf → ℕ → ℕ × Inode
both a b j = if ltb j a.count then entry a j else entry b (j - a.count)

entries-both : (a b : Leaf) → table (a.count + b.count) 0 (both a b) ≡ entries a ++ entries b
unfolding entries both
entries-both a b =
    table-append no_entry a.count b.count (entry a) (entry b) (both a b) (λ j lt. refl)

-- Two pairs of leaves with the same entries, wherever these are divided.
entries-moved :
    (a b c d : Leaf)
    → a.count + b.count ≡ c.count + d.count
    → ((j : ℕ) → j < a.count + b.count → both a b j ≡ both c d j)
    → entries a ++ entries b ≡ entries c ++ entries d
entries-moved a b c d h cells =
    sym (entries-both a b)
    ∙ table_congr (a.count + b.count) 0 (both a b) (both c d) (λ j le lt. cells j (omega arith))
    ∙ ap (λ n. table n 0 (both c d)) h
    ∙ entries-both c d

module _ (order : ℕ) where
  entry-coalesce :
      (from to : Leaf) (j : ℕ)
      → IsLeaf order to
      → to.count + from.count ≤ order
      → j < to.count + from.count
      → entry (coalesce_leaves from to) j ≡ both to from j
  unfolding entry coalesce_leaves both IsLeaf
  entry-coalesce from to j leaf fits lt = ground (
    arith,
    leaf,
    get_or-copy 0 from.count 0 to.count from.keys to.keys j,
    get_or-copy no_inode from.count 0 to.count from.inodes to.inodes j,
  )

  -- The entries of the first leaf are appended to the second's.
  pub entries-coalesce_leaves :
      (from to : Leaf)
      → IsLeaf order to
      → to.count + from.count ≤ order
      → entries (coalesce_leaves from to) ≡ entries to ++ entries from
  unfolding entries coalesce_leaves both
  entries-coalesce_leaves from to leaf fits =
      table-append no_entry to.count from.count (entry to) (entry from)
        (entry (coalesce_leaves from to)) (λ j lt. entry-coalesce from to j leaf fits lt)

  pub coalesce_leaves-IsLeaf :
      (from to : Leaf)
      → IsLeaf order to
      → to.count + from.count ≤ order
      → IsLeaf order (coalesce_leaves from to)
  unfolding IsLeaf coalesce_leaves
  coalesce_leaves-IsLeaf from to leaf fits = (
    length-copy _ _ _ _ from.keys to.keys ∙ leaf.0,
    length-copy _ _ _ _ from.inodes to.inodes ∙ leaf.1,
    omega arith,
  )

  module _ (neighbor n : Leaf) (whole : IsLeaf order neighbor) (leaf : IsLeaf order n)
      (room : n.count < order) where
    left-count :
        0 < neighbor.count
        → (take_from_left neighbor n).left.count + (take_from_left neighbor n).right.count
          ≡ neighbor.count + n.count
    unfolding take_from_left
    left-count some_entry = omega arith

    right-count :
        0 < neighbor.count
        → (take_from_right n neighbor).left.count + (take_from_right n neighbor).right.count
          ≡ n.count + neighbor.count
    unfolding take_from_right
    right-count some_entry = omega arith

    left-moved :
        0 < neighbor.count
        → (j : ℕ) → j < neighbor.count + n.count
        → both (take_from_left neighbor n).left (take_from_left neighbor n).right j
          ≡ both neighbor n j
    unfolding both entry take_from_left IsLeaf
    left-moved some_entry j lt = ground (
      arith,
      whole,
      leaf,
      length-shift_up 0 n.count n.count n.keys,
      length-shift_up no_inode n.count n.count n.inodes,
      get_or-set no_inode neighbor.inodes (neighbor.count - 1) j no_inode,
      get_or-set 0 (shift_up 0 n.count n.count n.keys) 0 (j - (neighbor.count - 1))
          (get_or neighbor.keys (neighbor.count - 1) 0),
      get_or-set no_inode (shift_up no_inode n.count n.count n.inodes) 0 (j - (neighbor.count - 1))
          (get_or neighbor.inodes (neighbor.count - 1) no_inode),
      get_or-shift_up 0 n.count n.count n.keys (j - (neighbor.count - 1)),
      get_or-shift_up no_inode n.count n.count n.inodes (j - (neighbor.count - 1)),
    )

    right-moved :
        0 < neighbor.count
        → (j : ℕ) → j < n.count + neighbor.count
        → both (take_from_right n neighbor).left (take_from_right n neighbor).right j
          ≡ both n neighbor j
    unfolding both entry take_from_right IsLeaf
    right-moved some_entry j lt = ground (
      arith,
      whole,
      leaf,
      get_or-set 0 n.keys n.count j (get_or neighbor.keys 0 0),
      get_or-set no_inode n.inodes n.count j (get_or neighbor.inodes 0 no_inode),
      get_or-shift_down 0 (neighbor.count - 1) 1 neighbor.keys (j - (n.count + 1)),
      get_or-shift_down no_inode (neighbor.count - 1) 1 neighbor.inodes (j - (n.count + 1)),
    )

    -- The two leaves hold the same entries, one of which changed places.
    pub entries-take_from_left :
        0 < neighbor.count
        → entries (take_from_left neighbor n).left ++ entries (take_from_left neighbor n).right
          ≡ entries neighbor ++ entries n
    entries-take_from_left some_entry =
        entries-moved (take_from_left neighbor n).left (take_from_left neighbor n).right neighbor n
          (left-count some_entry)
          (λ j lt. left-moved some_entry j (omega (arith, left-count some_entry)))

    pub entries-take_from_right :
        0 < neighbor.count
        → entries (take_from_right n neighbor).left ++ entries (take_from_right n neighbor).right
          ≡ entries n ++ entries neighbor
    entries-take_from_right some_entry =
        entries-moved (take_from_right n neighbor).left (take_from_right n neighbor).right n
          neighbor (right-count some_entry)
          (λ j lt. right-moved some_entry j (omega (arith, right-count some_entry)))

    -- The separator is the first number of the right one of the two leaves.
    pub take_from_left-separator :
        (take_from_left neighbor n).separator ≡ (entry (take_from_left neighbor n).right 0).0
    unfolding take_from_left entry IsLeaf
    take_from_left-separator = ground (
      arith,
      leaf,
      length-shift_up 0 n.count n.count n.keys,
      get_or-set 0 (shift_up 0 n.count n.count n.keys) 0 0
          (get_or neighbor.keys (neighbor.count - 1) 0),
    )

    pub take_from_right-separator :
        1 < neighbor.count
        → (take_from_right n neighbor).separator ≡ (entry (take_from_right n neighbor).right 0).0
    unfolding take_from_right entry IsLeaf
    take_from_right-separator two =
        ground (arith, whole, get_or-shift_down 0 (neighbor.count - 1) 1 neighbor.keys 0)
