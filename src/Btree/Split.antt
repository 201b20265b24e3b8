-- ===== src/Btree/Split.antt =====
-- src/btree.cpp, `cut` and `insertIntoLeafAfterSplitting` on the list of entries.
use paffs.Prelude.{
  ℕ, ◌+◌, ◌-◌, ◌*◌, ◌%◌, ◌^◌, ◌≤◌, ◌<◌, ◌≡◌, refl, sym, ap, ◌∙◌, ◌++◌, arith, ltb, ◌==◌,
  if◌then◌else◌, get_or, replicate, length-replicate, get_or-spread_insert, get_or-copy-fill,
  length-copy-fill, table, table-insert, table-append,
}
use paffs.Types.{Inode}
use paffs.Btree.{no_entry, Leaf, entry, entries, no_inode, IsLeaf, insert_sorted, cut}
use paffs.Btree.Lists.{insert_sorted-table, insertion_point_bounds}
use paffs.Btree.Leaves.{fresh_leaf, insertion_point, split_leaf, temp_keys, temp_inodes}

pub cut_bounds : (n : ℕ) → (n ≤ 2 * cut n) × (2 * cut n ≤ n + 1)
unfolding cut
cut_bounds n = ground arith

module _ (order : ℕ) (l : Leaf) (new : Inode) (leaf : IsLeaf order l) (full : l.count ≡ order)
    (some_order : 0 < order) where
  unfoldable temp_entry : ℕ → ℕ × Inode
  temp_entry j = (get_or (temp_keys order l new) j 0, get_or (temp_inodes order l new) j no_inode)

  temp_entry_lem :
      (j : ℕ)
      → j < order + 1
      → temp_entry j ≡ (
          if ltb j (insertion_point order 0 l.keys new.no)
          then entry l j
          else if j == insertion_point order 0 l.keys new.no
          then (new.no, new)
          else entry l (j - 1))
  unfolding temp_entry entry temp_keys temp_inodes
  temp_entry_lem j lt =
      let p_in : insertion_point order 0 l.keys new.no ≤ order =
        omega (arith, (insertion_point_bounds l.keys (λ i. no_inode) new.no order 0).1) in
      ground (
        arith,
        full,
        get_or-spread_insert 0 l.keys l.count (insertion_point order 0 l.keys new.no) new.no j,
        get_or-spread_insert no_inode l.inodes l.count (insertion_point order 0 l.keys new.no) new
            j,
      )

  split-table : table (order + 1) 0 temp_entry ≡ insert_sorted (new.no, new) (entries l)
  unfolding entries entry
  split-table =
      let p_in : insertion_point order 0 l.keys new.no ≤ order =
        omega (arith, (insertion_point_bounds l.keys (λ i. no_inode) new.no order 0).1) in
      let moved : table (order + 1) 0 temp_entry
          ≡ insert_sorted (new.no, new) (table order 0 (entry l)) =
        table-insert no_entry order (insertion_point order 0 l.keys new.no) (new.no, new) (entry l)
          temp_entry p_in temp_entry_lem
        ∙ sym (
            insert_sorted-table l.keys (λ i. get_or l.inodes i no_inode) (new.no, new) order 0
              (insertion_point order 0 l.keys new.no) (omega arith)) in
      moved ∙ ap (λ n. insert_sorted (new.no, new) (table n 0 (entry l))) (sym full)

  split-left : (j : ℕ) → j < cut order → entry (split_leaf order l new).left j ≡ temp_entry j
  unfolding entry temp_entry split_leaf IsLeaf
  split-left j lt = ground (
    arith,
    leaf,
    cut_bounds order,
    get_or-copy-fill 0 (temp_keys order l new) l.keys (cut order) 0 order 0 j,
    get_or-copy-fill no_inode (temp_inodes order l new) l.inodes (cut order) 0 order no_inode j,
  )

  split-right :
      (j : ℕ)
      → j < order + 1 - cut order
      → entry (split_leaf order l new).right j ≡ temp_entry (cut order + j)
  unfolding entry temp_entry split_leaf fresh_leaf
  split-right j lt = ground (
    arith,
    cut_bounds order,
    length-replicate {A = ℕ} order 0,
    length-replicate order no_inode,
    get_or-copy-fill 0 (temp_keys order l new) (replicate order 0) (order + 1 - cut order)
        (cut order) order 0 j,
    get_or-copy-fill no_inode (temp_inodes order l new) (replicate order no_inode)
        (order + 1 - cut order) (cut order) order no_inode j,
  )

  split-parts :
      table (cut order + (order + 1 - cut order)) 0 temp_entry
      ≡ table (cut order) 0 (entry (split_leaf order l new).left)
        ++ table (order + 1 - cut order) 0 (entry (split_leaf order l new).right)
  split-parts =
      table-append no_entry (cut order) (order + 1 - cut order) _ _ temp_entry
        (λ j lt. ground (arith, split-left j, split-right (j - cut order)))

  -- The two leaves hold, one after the other, the old entries with the new one in its place.
  pub entries-split_leaf :
      entries (split_leaf order l new).left ++ entries (split_leaf order l new).right
      ≡ insert_sorted (new.no, new) (entries l)
  unfolding entries split_leaf
  entries-split_leaf =
      let whole : cut order + (order + 1 - cut order) ≡ order + 1 =
        omega (arith, cut_bounds order) in
      sym split-parts ∙ ap (λ n. table n 0 temp_entry) whole ∙ split-table

  pub split_leaf-IsLeaf :
      IsLeaf order (split_leaf order l new).left × IsLeaf order (split_leaf order l new).right
  unfolding IsLeaf split_leaf fresh_leaf
  split_leaf-IsLeaf = (
    (
      length-copy-fill 0 _ l.keys (cut order) 0 order 0 leaf.0,
      length-copy-fill no_inode _ l.inodes (cut order) 0 order no_inode leaf.1,
      omega (arith, cut_bounds order),
    ),
    (
      length-copy-fill 0 _ _ (order + 1 - cut order) (cut order) order 0 (length-replicate order _),
      length-copy-fill no_inode _ _ (order + 1 - cut order) (cut order) order no_inode
          (length-replicate order _),
      omega (arith, cut_bounds order),
    ),
  )

  -- Neither half is below the minimum, and neither is full if a leaf has room for two.
  pub split_leaf-count :
      ((split_leaf order l new).left.count ≡ cut order)
      × ((split_leaf order l new).right.count + cut order ≡ order + 1)
  unfolding split_leaf
  split_leaf-count = (refl, omega (arith, cut_bounds order))

  -- The separator is the first number of the right leaf, cut to 16 bits.
  pub split_leaf-separator :
      (split_leaf order l new).separator ≡ (entry (split_leaf order l new).right 0).0 % 2 ^ 16
  unfolding split_leaf entry
  split_leaf-separator = refl
