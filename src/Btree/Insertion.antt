-- ===== src/Btree/Insertion.antt =====
-- src/btree.cpp, `insertInode` on the leaf that `findLeaf` answers: all its branches.
use paffs.Prelude.{
  ℕ, zero, suc, ◌+◌, ◌≤◌, ◌<◌, ◌≡◌, ◌≢◌, refl, sym, subst, Bool, true, false, ◌&&◌, List, ◌++◌,
  none, arith, ltb, if◌then◌else◌, if-elim, ltb→lt, get_or,
}
use paffs.Types.{Inode, exists}
use paffs.Btree.{Leaf, entry, entries, no_inode, IsLeaf, IsSorted, lookup, insert_sorted}
use paffs.Btree.Leaves.{key_index, split_leaf, insert_into_leaf}
use paffs.Btree.Lists.{key_index_bounds, lookup-table, insert_sorted-IsSorted}
use paffs.Btree.Insert.{entries-insert_into_leaf}
use paffs.Btree.Split.{entries-split_leaf}
use paffs.Btree.Steps.{is_listed, Inserted, refused, whole, split, insert_inode}

-- The entries after the step, those of the right half after those of the left one.
unfoldable pub entries_after : Leaf → Inserted → List (ℕ × Inode)
entries_after l (refused r) = entries l
entries_after l (whole a) = entries a
entries_after l (split s) = entries s.left ++ entries s.right

unfoldable pub is_refused : ℕ → Leaf → Inode → Bool
is_refused order l new = ltb 0 l.count && is_listed order 0 l.keys new.no

is_listed-key_index :
    (key n r i : ℕ) (keys : List ℕ)
    → n ≤ r
    → key_index n i keys key < i + n
    → is_listed r i keys key ≡ true
unfolding key_index is_listed
is_listed-key_index key zero r i keys le h = absurd (omega arith)
is_listed-key_index key (suc n) zero i keys le h = absurd (omega arith)
is_listed-key_index key (suc n) (suc r) i keys le h =
    ground (arith, is_listed-key_index key n r (i + 1) keys)

after_if :
    (l : Leaf) (c : Bool) (a : Inserted) (es : List (ℕ × Inode))
    → entries_after l a ≡ es
    → entries_after l (if c then refused exists else a) ≡ (if c then entries l else es)
unfolding entries_after
after_if l true a es h = refl
after_if l false a es h = h

module _ (order : ℕ) (l : Leaf) (new : Inode) (leaf : IsLeaf order l) (some_order : 0 < order) where
  -- A number that is there is refused.
  pub insert_inode-exists :
      lookup new.no (entries l) ≢ none → insert_inode order l new ≡ refused exists
  unfolding insert_inode entries entry IsLeaf
  insert_inode-exists found = ground (
    arith,
    leaf,
    lookup-table l.keys (λ i. get_or l.inodes i no_inode) new.no l.count 0,
    key_index_bounds l.keys (λ i. no_inode) new.no l.count 0,
    is_listed-key_index new.no l.count order 0 l.keys,
  )

  absent : is_refused order l new ≡ false → lookup new.no (entries l) ≡ none
  unfolding is_refused entries entry IsLeaf
  absent kept = ground (
    arith,
    leaf,
    lookup-table l.keys (λ i. get_or l.inodes i no_inode) new.no l.count 0,
    key_index_bounds l.keys (λ i. no_inode) new.no l.count 0,
    is_listed-key_index new.no l.count order 0 l.keys,
  )

  -- The entry goes into one leaf or into two.
  inserted :
      entries_after l (
        if ltb l.count order
        then whole (insert_into_leaf l new)
        else split (split_leaf order l new))
      ≡ insert_sorted (new.no, new) (entries l)
  unfolding entries_after IsLeaf
  inserted =
      if-elim (λ a. entries_after l a ≡ insert_sorted (new.no, new) (entries l)) (ltb l.count order)
        _ _ (λ t. entries-insert_into_leaf order l new leaf (ltb→lt _ _ t))
        (λ f. entries-split_leaf order l new leaf (ground (arith, leaf)) some_order)

  -- If the scan does not find the number, the entry is inserted, in one leaf or in two.
  pub entries_after-insert_inode :
      entries_after l (insert_inode order l new)
      ≡ (if is_refused order l new then entries l else insert_sorted (new.no, new) (entries l))
  unfolding insert_inode is_refused
  entries_after-insert_inode = after_if l (is_refused order l new) _ _ inserted

  pub insert_inode-IsSorted :
      IsSorted (entries l) → IsSorted (entries_after l (insert_inode order l new))
  insert_inode-IsSorted sorted = subst IsSorted (sym entries_after-insert_inode) (
      if-elim IsSorted (is_refused order l new) _ _ (λ t. sorted)
        (λ f. insert_sorted-IsSorted (new.no, new) (entries l) (absent f) sorted))
