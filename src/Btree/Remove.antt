-- ===== src/Btree/Remove.antt =====
-- src/btree.cpp, `removeEntryFromNode` on the list of a leaf's entries.
use paffs.Prelude.{
  ℕ, ◌+◌, ◌-◌, ◌%◌, ◌^◌, ◌<◌, ◌≡◌, ◌≢◌, sym, ap, ◌∙◌, true, false, none, arith, ltb, if◌then◌else◌,
  get_or, get_or-remove, table, table-remove, remove_at, length-fill, length-shift_down, shift_down,
  fill,
}
use paffs.Types.{ok}
use paffs.Btree.{no_entry, Leaf, entry, entries, no_inode, IsLeaf, IsSorted, lookup, erase}
use paffs.Btree.Lists.{erase-table, key_index_bounds, key_index_found, lookup-table, IsSorted-row}
use paffs.Btree.Leaves.{key_index, is_missing, remove_from_leaf}

module _ (order : ℕ) (l : Leaf) (key : ℕ) (leaf : IsLeaf order l) (u16_order : order < 2 ^ 16)
    (sorted : IsSorted (entries l)) (found : lookup key (entries l) ≢ none) where
  key_in : key_index l.count 0 l.keys key < l.count
  unfolding entries entry
  key_in = ground (
    arith,
    found,
    lookup-table l.keys (λ i. get_or l.inodes i no_inode) key l.count 0,
    key_index_bounds l.keys (λ i. no_inode) key l.count 0,
  )

  not_missing : is_missing (key_index l.count 0 l.keys key) l.keys key ≡ false
  unfolding is_missing entries entry
  not_missing = ground (
    arith,
    key_in,
    key_index_found l.keys (λ i. no_inode) key l.count 0,
    IsSorted-row l.keys (λ i. get_or l.inodes i no_inode) l.count 0
        (key_index l.count 0 l.keys key - 1) (key_index l.count 0 l.keys key) sorted,
  )

  -- The leaf without the cell.
  unfoldable pub closed_up : Leaf
  closed_up =
      let i : ℕ = key_index l.count 0 l.keys key in
      let moved : ℕ = l.count - (i + 1) in
      let n : ℕ = l.count - 1 in
      record {
        keys = fill 0 (order - n) n 0 (shift_down 0 moved (i + 1) l.keys);
        inodes = fill no_inode (order - n) n no_inode (shift_down no_inode moved (i + 1) l.inodes);
        count = n;
        dirty = true;
      }

  pub remove_from_leaf-found : remove_from_leaf order l key ≡ (ok, closed_up)
  unfolding remove_from_leaf closed_up IsLeaf
  remove_from_leaf-found =
      let one_fewer : (l.count + 2 ^ 16 - 1) % 2 ^ 16 ≡ l.count - 1 = omega (arith, leaf, key_in) in
      ground (arith, not_missing, one_fewer)

  entry-closed_up :
      (j : ℕ)
      → j < l.count - 1
      → entry closed_up j
        ≡ (if ltb j (key_index l.count 0 l.keys key) then entry l j else entry l (j + 1))
  unfolding entry closed_up IsLeaf
  entry-closed_up j lt = ground (
    arith,
    key_in,
    leaf,
    get_or-remove 0 l.keys l.count (key_index l.count 0 l.keys key) order 0 j,
    get_or-remove no_inode l.inodes l.count (key_index l.count 0 l.keys key) order no_inode j,
  )

  -- The entry is gone from the list.
  pub entries-closed_up : entries closed_up ≡ erase key (entries l)
  unfolding entries entry closed_up
  entries-closed_up =
      let same_count : l.count - 1 + 1 ≡ l.count = omega (arith, key_in) in
      table-remove no_entry (l.count - 1) (key_index l.count 0 l.keys key) (entry l)
        (entry closed_up) (omega (arith, key_in)) entry-closed_up
      ∙ ap (λ n. remove_at (key_index l.count 0 l.keys key) (table n 0 (entry l))) same_count
      ∙ sym (erase-table l.keys (λ i. get_or l.inodes i no_inode) key l.count 0 _ (omega arith))

  pub closed_up-IsLeaf : IsLeaf order closed_up
  unfolding IsLeaf closed_up
  closed_up-IsLeaf = (
    length-fill _ _ _ _ _ ∙ length-shift_down _ _ _ l.keys ∙ leaf.0,
    length-fill _ _ _ _ _ ∙ length-shift_down _ _ _ l.inodes ∙ leaf.1,
    omega arith,
  )

  pub closed_up-count : closed_up.count + 1 ≡ l.count
  unfolding closed_up
  closed_up-count = omega (arith, key_in)
