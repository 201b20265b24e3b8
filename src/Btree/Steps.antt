-- ===== src/Btree/Steps.antt =====
-- src/btree.cpp: the whole steps on a leaf, `insertInode` and `deleteEntry`, up to what they do to
-- the parent.
use paffs.Prelude.{
  ℕ, zero, suc, ◌+◌, Bool, true, false, ◌&&◌, List, ltb, leb, ◌==◌, if◌then◌else◌, get_or,
}
use paffs.Types.{Result, ok, exists, Inode}
use paffs.Btree.{Leaf, cut}
use paffs.Btree.Leaves.{
  Split, insert_into_leaf, split_leaf, remove_from_leaf, coalesce_leaves, take_from_left,
  take_from_right,
}

-- What `deleteEntry` does to a leaf below the root, once the neighbor is found. `is_leftmost` is
-- that the neighbor is the one to the right (`neighborIndex == -1`).
pub data Deleted : Type 0 where
  failed : Result → Deleted
  kept : Leaf → Deleted
  merged : Leaf → Deleted
  redistributed : Split → Deleted

unfoldable pub rebalance : ℕ → Bool → Leaf → Leaf → Deleted
rebalance order is_leftmost neighbor n =
    if leb (cut order) n.count
    then kept n
    else if leb (neighbor.count + n.count) order
    then (if is_leftmost
        then merged (coalesce_leaves neighbor n)
        else merged (coalesce_leaves n neighbor))
    else if is_leftmost
    then redistributed (take_from_right n neighbor)
    else redistributed (take_from_left neighbor n)

abbrev when_ok : Result → Deleted → Deleted
when_ok ok d = d
when_ok r d = failed r

unfoldable pub delete_from_leaf : ℕ → Bool → Leaf → Leaf → ℕ → Deleted
delete_from_leaf order is_leftmost neighbor n key =
    let r : Result × Leaf = remove_from_leaf order n key in
    when_ok r.0 (rebalance order is_leftmost neighbor r.1)

-- The scan of `insertInode` for the number, over all the `order` cells.
unfoldable pub is_listed : ℕ → ℕ → List ℕ → ℕ → Bool
is_listed zero i keys key = false
is_listed (suc r) i keys key =
    let rest : Bool = is_listed r (i + 1) keys key in if get_or keys i 0 == key then true else rest

pub data Inserted : Type 0 where
  refused : Result → Inserted
  whole : Leaf → Inserted
  split : Split → Inserted

-- `insertInode` on the leaf that `findLeaf` answers, when the cache has the nodes it asks for. The
-- journal gets the entry `btree::Insert` unless the inode is refused; it is left out here.
unfoldable pub insert_inode : ℕ → Leaf → Inode → Inserted
insert_inode order l new =
    let listed : Bool = ltb 0 l.count && is_listed order 0 l.keys new.no in
    if listed
    then refused exists
    else if ltb l.count order
    then whole (insert_into_leaf l new)
    else split (split_leaf order l new)
