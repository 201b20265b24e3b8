-- ===== src/Btree/Insert.antt =====
-- src/btree.cpp, `insertIntoLeaf`, `findInLeaf` and `updateExistingInode` on the list of entries.
use paffs.Prelude.{
  ℕ, ap, ◌≢◌, Option, set, get_or-set, true, none, Bool, some, ◌+◌, ◌-◌, ◌≤◌, ◌<◌, ◌≡◌, sym, ◌∙◌,
  arith, ltb, ◌==◌, if◌then◌else◌, get_or, length-set, length-shift_up, get_or-insert, table-insert,
}
use paffs.Types.{Inode, ok}
use paffs.Btree.{no_entry, Leaf, entry, entries, no_inode, IsLeaf, lookup, insert_sorted}
use paffs.Btree.Lists.{
  key_index_bounds, key_index_found, lookup-insert_sorted, insert_sorted-table,
  insertion_point_bounds, lookup-table,
}
use paffs.Btree.Leaves.{key_index, update_existing, insertion_point, insert_into_leaf, find_in_leaf}

module _ (order : ℕ) (l : Leaf) (new : Inode) (leaf : IsLeaf order l) (room : l.count < order) where
  entry-insert :
      (j : ℕ)
      → j < l.count + 1
      → entry (insert_into_leaf l new) j ≡ (
          if ltb j (insertion_point l.count 0 l.keys new.no)
          then entry l j
          else if j == insertion_point l.count 0 l.keys new.no
          then (new.no, new)
          else entry l (j - 1))
  unfolding entry insert_into_leaf IsLeaf
  entry-insert j lt =
      let p_in : insertion_point l.count 0 l.keys new.no ≤ l.count =
        omega (arith, (insertion_point_bounds l.keys (λ i. no_inode) new.no l.count 0).1) in
      ground (
        arith,
        leaf,
        get_or-insert 0 l.keys l.count (insertion_point l.count 0 l.keys new.no) new.no j,
        get_or-insert no_inode l.inodes l.count (insertion_point l.count 0 l.keys new.no) new j,
      )

  -- The entry stands in its place among the others.
  pub entries-insert_into_leaf :
      entries (insert_into_leaf l new) ≡ insert_sorted (new.no, new) (entries l)
  unfolding entries entry insert_into_leaf
  entries-insert_into_leaf =
      let p_in : insertion_point l.count 0 l.keys new.no ≤ l.count =
        omega (arith, (insertion_point_bounds l.keys (λ i. no_inode) new.no l.count 0).1) in
      table-insert no_entry l.count (insertion_point l.count 0 l.keys new.no) (new.no, new)
        (entry l) (entry (insert_into_leaf l new)) p_in entry-insert
      ∙ sym (
          insert_sorted-table l.keys (λ i. get_or l.inodes i no_inode) (new.no, new) l.count 0
            (insertion_point l.count 0 l.keys new.no) (omega arith))

  pub insert_into_leaf-IsLeaf : IsLeaf order (insert_into_leaf l new)
  unfolding IsLeaf insert_into_leaf
  insert_into_leaf-IsLeaf = (
    length-set _ _ new.no ∙ length-shift_up 0 _ l.count l.keys ∙ leaf.0,
    length-set _ _ new ∙ length-shift_up no_inode _ l.count l.inodes ∙ leaf.1,
    omega arith,
  )

-- The search finds what the list of entries says.
pub find_in_leaf_lem : (l : Leaf) (key : ℕ) → find_in_leaf l key ≡ lookup key (entries l)
unfolding find_in_leaf entries entry
find_in_leaf_lem l key =
    ground (arith, lookup-table l.keys (λ i. get_or l.inodes i no_inode) key l.count 0)

-- After the insertion, the search finds the new inode, and every other one as before.
pub find_in_leaf-insert_into_leaf :
    (order : ℕ) (l : Leaf) (new : Inode) (key : ℕ)
    → IsLeaf order l
    → l.count < order
    → find_in_leaf (insert_into_leaf l new) key
      ≡ (if new.no == key then some new else find_in_leaf l key)
find_in_leaf-insert_into_leaf order l new key leaf room =
    let other : lookup key (entries l) ≡ find_in_leaf l key = sym (find_in_leaf_lem l key) in
    find_in_leaf_lem (insert_into_leaf l new) key
    ∙ ap (lookup key) (entries-insert_into_leaf order l new leaf room)
    ∙ lookup-insert_sorted key (new.no, new) (entries l)
    ∙ ap (λ o. if new.no == key then some new else o) other

-- The leaf after `updateExistingInode`.
unfoldable pub leaf_after : Leaf → Option Leaf → Leaf
leaf_after l none = l
leaf_after l (some a) = a

module _ (order : ℕ) (same : Inode → Inode → Bool) (l : Leaf) (new : Inode) (leaf : IsLeaf order l)
    (equal : (a b : Inode) → same a b ≡ true → a ≡ b) (found : find_in_leaf l new.no ≢ none) where
  pos_in : key_index l.count 0 l.keys new.no < l.count
  unfolding find_in_leaf
  pos_in = ground (arith, found, key_index_bounds l.keys (λ i. no_inode) new.no l.count 0)

  pub update_existing-ok : (update_existing same l new).0 ≡ ok
  unfolding update_existing
  update_existing-ok = ground (arith, pos_in)

  find-set :
      (key : ℕ)
      → find_in_leaf
          (record l { inodes = set l.inodes (key_index l.count 0 l.keys new.no) new; dirty = true })
          key
        ≡ (if new.no == key then some new else find_in_leaf l key)
  unfolding find_in_leaf IsLeaf
  find-set key = ground (
    arith,
    leaf,
    pos_in,
    key_index_found l.keys (λ i. no_inode) key l.count 0,
    key_index_bounds l.keys (λ i. no_inode) key l.count 0,
    key_index_found l.keys (λ i. no_inode) new.no l.count 0,
    get_or-set no_inode l.inodes (key_index l.count 0 l.keys new.no)
        (key_index l.count 0 l.keys key) new,
  )

  find-same :
      (key : ℕ)
      → get_or l.inodes (key_index l.count 0 l.keys new.no) no_inode ≡ new
      → find_in_leaf l key ≡ (if new.no == key then some new else find_in_leaf l key)
  unfolding find_in_leaf
  find-same key e = ground (arith, pos_in, e)

  -- After the update, the search finds the new inode, and every other one as before.
  pub find_in_leaf-update_existing :
      (key : ℕ)
      → find_in_leaf (leaf_after l (update_existing same l new).1) key
        ≡ (if new.no == key then some new else find_in_leaf l key)
  unfolding update_existing leaf_after
  find_in_leaf-update_existing key = ground (
    arith,
    pos_in,
    find-set key,
    find-same key,
    equal (get_or l.inodes (key_index l.count 0 l.keys new.no) no_inode) new,
  )
