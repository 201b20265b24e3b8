-- ===== src/Tests/Trees.antt =====
-- Nodes of a B+ tree of order four.
use paffs.Prelude.{
  ℕ, spread, ◌-◌, ◌≤◌, ◌<◌, ◌^◌, ◌≡◌, ◌≢◌, refl, Bool, true, false, [], ◌∷◌, ◌++◌, none, some, ◌==◌,
  if◌then◌else◌, get_or, insert_at, remove_at, table, arith,
}
use paffs.Types.{ok, exists, Inode}
use paffs.Btree.{
  Leaf, Branch, no_inode, entries, entry, IsLeaf, IsSorted, IsAbove, lookup, insert_sorted, erase,
  cut,
}
use paffs.Btree.Leaves.{find_in_leaf, update_existing, key_index}
use paffs.Btree.Insert.{leaf_after, find_in_leaf-update_existing}
use paffs.Btree.Steps.{insert_inode, refused, delete_from_leaf}
use paffs.Btree.Insertion.{
  entries_after, is_refused, entries_after-insert_inode, insert_inode-IsSorted, insert_inode-exists,
}
use paffs.Btree.Deletion.{
  entries_left, in_order, IsHalfFull, IsBalanced, entries_left-delete_from_leaf,
  delete_from_leaf-IsBalanced,
}
use paffs.Btree.Branches.{Child, split_branch, temp_keys, remove_from_branch}
use paffs.Btree.BranchLaws.{IsBranch, Holds, Holds2, keys_of, pointers_of, children_of}
use paffs.Btree.BranchSplit.{split_branch-Holds2}
use paffs.Btree.BranchRemove.{remove_from_branch-Holds}
use paffs.Btree.BranchSteps
use paffs.Btree.BranchSteps.{rebalance, IsRebalanced, rebalance-IsRebalanced}

abbrev inode : ℕ → Inode
inode n = record no_inode { no = n }

-- A full leaf, one with the least number of entries, and one with room.
abbrev full_leaf : Leaf
full_leaf = record {
  keys = 2 ∷ 4 ∷ 6 ∷ 8 ∷ [];
  inodes = inode 2 ∷ inode 4 ∷ inode 6 ∷ inode 8 ∷ [];
  count = 4;
  dirty = false;
}

abbrev low_leaf : Leaf
low_leaf = record {
  keys = 11 ∷ 13 ∷ 0 ∷ 0 ∷ [];
  inodes = inode 11 ∷ inode 13 ∷ no_inode ∷ no_inode ∷ [];
  count = 2;
  dirty = false;
}

abbrev same_no : Inode → Inode → Bool
same_no a b = false

full_leaf-IsLeaf : IsLeaf 4 full_leaf
unfolding IsLeaf
full_leaf-IsLeaf = (refl, refl, omega arith)

low_leaf-IsLeaf : IsLeaf 4 low_leaf
unfolding IsLeaf
low_leaf-IsLeaf = (refl, refl, omega arith)

full_leaf-IsSorted : IsSorted (entries full_leaf)
unfolding IsSorted IsAbove entries entry table
full_leaf-IsSorted = (omega arith, (omega arith, (omega arith, tt)))

low_leaf-IsSorted : IsSorted (entries low_leaf)
unfolding IsSorted IsAbove entries entry table
low_leaf-IsSorted = (omega arith, tt)

four_found : lookup 4 (entries full_leaf) ≢ none
unfolding lookup entries entry table
four_found = ground arith

thirteen_found : lookup 13 (entries low_leaf) ≢ none
unfolding lookup entries entry table
thirteen_found = ground arith

six_found : find_in_leaf full_leaf 6 ≢ none
unfolding find_in_leaf key_index
six_found = ground arith

full_leaf-IsHalfFull : IsHalfFull 4 full_leaf
unfolding IsHalfFull cut
full_leaf-IsHalfFull = (omega arith, omega arith)

low_leaf-IsHalfFull : IsHalfFull 4 low_leaf
unfolding IsHalfFull cut
low_leaf-IsHalfFull = (omega arith, omega arith)

half_cut : cut 4 ≤ 4
unfolding cut
half_cut = omega arith

entries_after-insert_inode_example :
    entries_after full_leaf (insert_inode 4 full_leaf (inode 5)) ≡ (
      if is_refused 4 full_leaf (inode 5)
      then entries full_leaf
      else insert_sorted (5, inode 5) (entries full_leaf))
entries_after-insert_inode_example =
    entries_after-insert_inode 4 full_leaf (inode 5) full_leaf-IsLeaf (omega arith)

insert_inode-IsSorted_example :
    IsSorted (entries_after full_leaf (insert_inode 4 full_leaf (inode 5)))
insert_inode-IsSorted_example =
    insert_inode-IsSorted 4 full_leaf (inode 5) full_leaf-IsLeaf (omega arith) full_leaf-IsSorted

insert_inode-exists_example : insert_inode 4 full_leaf (inode 4) ≡ refused exists
insert_inode-exists_example =
    insert_inode-exists 4 full_leaf (inode 4) full_leaf-IsLeaf (omega arith) four_found

entries_left-delete_from_leaf_example :
    entries_left false full_leaf (delete_from_leaf 4 false full_leaf low_leaf 13)
    ≡ in_order false full_leaf (erase 13 (entries low_leaf))
entries_left-delete_from_leaf_example =
    entries_left-delete_from_leaf 4 full_leaf low_leaf 13 (omega arith) low_leaf-IsLeaf
      (omega arith) low_leaf-IsSorted thirteen_found false full_leaf-IsLeaf half_cut

delete_from_leaf-IsBalanced_example : IsBalanced 4 (delete_from_leaf 4 false full_leaf low_leaf 13)
delete_from_leaf-IsBalanced_example =
    delete_from_leaf-IsBalanced 4 full_leaf low_leaf 13 (omega arith) low_leaf-IsLeaf (omega arith)
      low_leaf-IsSorted thirteen_found false full_leaf-IsHalfFull low_leaf-IsHalfFull

find_in_leaf-update_existing_example :
    find_in_leaf (leaf_after full_leaf (update_existing same_no full_leaf (inode 6)).1) 8
    ≡ (if 6 == 8 then some (inode 6) else find_in_leaf full_leaf 8)
find_in_leaf-update_existing_example =
    find_in_leaf-update_existing 4 same_no full_leaf (inode 6) full_leaf-IsLeaf
      (λ a b h. ground arith) six_found 8

-- Branches of order four: three keys and four children at most.
abbrev full_branch : Branch
full_branch = record {
  keys = 10 ∷ 20 ∷ 30 ∷ [];
  pointers = 101 ∷ 102 ∷ 103 ∷ 104 ∷ [];
  children = some 1 ∷ none ∷ none ∷ some 4 ∷ [];
  count = 3;
  dirty = false;
}

abbrev low_branch : Branch
low_branch = record {
  keys = 0 ∷ 0 ∷ 0 ∷ [];
  pointers = 201 ∷ 0 ∷ 0 ∷ 0 ∷ [];
  children = some 7 ∷ none ∷ none ∷ none ∷ [];
  count = 0;
  dirty = true;
}

full_branch-IsBranch : IsBranch 4 full_branch
unfolding IsBranch
full_branch-IsBranch = (refl, refl, refl, omega arith)

low_branch-IsBranch : IsBranch 4 low_branch
unfolding IsBranch
low_branch-IsBranch = (refl, refl, refl, omega arith)

abbrev new_child : Child
new_child = record { self = 0; cached = some 9 }

small_key : get_or (temp_keys full_branch 1 15) (cut 4 - 1) 0 < 2 ^ 16
unfolding temp_keys cut spread
small_key = omega arith

split_branch-Holds2_example :
    Holds2
      (split_branch 4 full_branch 1 15 new_child).left
      (split_branch 4 full_branch 1 15 new_child).right
      (split_branch 4 full_branch 1 15 new_child).separator
      (insert_at 1 15 (keys_of full_branch))
      (insert_at 2 0 (pointers_of full_branch))
      (insert_at 2 (some 9) (children_of full_branch))
split_branch-Holds2_example =
    split_branch-Holds2 4 full_branch 1 15 new_child full_branch-IsBranch refl (omega arith)
      (omega arith) small_key

full_branch-IsHalfFull : BranchSteps.IsHalfFull 4 full_branch
unfolding BranchSteps.IsHalfFull cut
full_branch-IsHalfFull = (omega arith, omega arith)

low_cut : cut 4 ≤ 2
unfolding cut
low_cut = omega arith

rebalance-IsRebalanced_example :
    IsRebalanced 4 low_branch
      (keys_of low_branch ++ (9 ∷ keys_of full_branch))
      (pointers_of low_branch ++ pointers_of full_branch)
      (children_of low_branch ++ children_of full_branch)
      (rebalance 4 true full_branch 9 low_branch)
rebalance-IsRebalanced_example =
    rebalance-IsRebalanced 4 full_branch low_branch 9 full_branch-IsBranch low_branch-IsBranch
      full_branch-IsHalfFull low_cut (omega arith) (omega arith) true

full_branch-increases :
    (i j : ℕ) → i < j → j < 3 → get_or full_branch.keys i 0 < get_or full_branch.keys j 0
full_branch-increases i j less low = ground arith

remove_from_branch-Holds_example :
    ((remove_from_branch 4 full_branch 20).0 ≡ ok)
    × Holds
        (remove_from_branch 4 full_branch 20).1
        (remove_at 1 (keys_of full_branch))
        (remove_at 2 (pointers_of full_branch))
        (remove_at 2 (children_of full_branch))
remove_from_branch-Holds_example =
    remove_from_branch-Holds 4 full_branch 20 1 full_branch-IsBranch (omega arith) (omega arith)
      refl (full_branch-increases)
