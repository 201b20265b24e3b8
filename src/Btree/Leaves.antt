-- ===== src/Btree/Leaves.antt =====
-- src/btree.cpp: the operations on the leaves of the B+ tree. A loop over both arrays of a leaf is
-- one loop over each of them. `order` is `leafOrder`.
use paffs.Prelude.{
  ℕ, zero, suc, ◌+◌, ◌-◌, ◌%◌, ◌^◌, Bool, true, false, ◌&&◌, List, Option, none, some, ltb, ◌==◌,
  if◌then◌else◌, get_or, set, replicate, shift_up, shift_down, copy, spread, fill,
}
use paffs.Types.{Result, ok, bug, Inode}
use paffs.Btree.{Leaf, no_inode, cut}

-- A node that the cache just handed out: zeroed.
unfoldable pub fresh_leaf : ℕ → Leaf
fresh_leaf order = record {
  keys = replicate order 0;
  inodes = replicate order no_inode;
  count = 0;
  dirty = false;
}

-- The index of the first of `r` keys from `i` on that is not smaller.
unfoldable pub insertion_point : ℕ → ℕ → List ℕ → ℕ → ℕ
insertion_point zero i keys key = i
insertion_point (suc r) i keys key =
    let rest : ℕ = insertion_point r (i + 1) keys key in
    if ltb (get_or keys i 0) key then rest else i

-- The index of the first of `r` keys from `i` on that is equal.
unfoldable pub key_index : ℕ → ℕ → List ℕ → ℕ → ℕ
key_index zero i keys key = i
key_index (suc r) i keys key =
    let rest : ℕ = key_index r (i + 1) keys key in if get_or keys i 0 == key then i else rest

unfoldable pub insert_into_leaf : Leaf → Inode → Leaf
insert_into_leaf l new =
    let p : ℕ = insertion_point l.count 0 l.keys new.no in
    let moved : ℕ = l.count - p in
    record {
      keys = set (shift_up 0 moved l.count l.keys) p new.no;
      inodes = set (shift_up no_inode moved l.count l.inodes) p new;
      count = l.count + 1;
      dirty = true;
    }

-- `none` is `Result::notFound`.
unfoldable pub find_in_leaf : Leaf → ℕ → Option Inode
find_in_leaf l key =
    let i : ℕ = key_index l.count 0 l.keys key in
    if i == l.count then none else some (get_or l.inodes i no_inode)

-- The leaf's part of `updateExistingInode`; `same` is the outcome of memcmp on the old inode.
-- `none` is that the journal entry is not written, because nothing changes.
unfoldable pub update_existing : (Inode → Inode → Bool) → Leaf → Inode → Result × Option Leaf
update_existing same l new =
    let pos : ℕ = key_index l.count 0 l.keys new.no in
    if pos == l.count
    then (bug, none)
    else if same (get_or l.inodes pos no_inode) new
    then (ok, none)
    else (ok, some (record l { inodes = set l.inodes pos new; dirty = true }))

-- The arrays with the new entry in its place, one longer than a leaf's.
unfoldable pub temp_keys : ℕ → Leaf → Inode → List ℕ
temp_keys order l new =
    let p : ℕ = insertion_point order 0 l.keys new.no in
    set (spread 0 l.count p 0 0 l.keys (replicate (order + 1) 0)) p new.no

unfoldable pub temp_inodes : ℕ → Leaf → Inode → List Inode
temp_inodes order l new =
    let p : ℕ = insertion_point order 0 l.keys new.no in
    set (spread no_inode l.count p 0 0 l.inodes (replicate (order + 1) no_inode)) p new

pub record Split : Type 0 where
  pub left : Leaf
  pub right : Leaf
  pub separator : ℕ  -- uint16_t newKey

-- `insertIntoLeafAfterSplitting` up to the call of `insertIntoParent`.
unfoldable pub split_leaf : ℕ → Leaf → Inode → Split
split_leaf order l new =
    let n : ℕ = cut order in
    let ks : List ℕ = temp_keys order l new in
    let is : List Inode = temp_inodes order l new in
    let f : Leaf = fresh_leaf order in
    let m : ℕ = order + 1 - n in
    let right_keys : List ℕ = fill 0 (order - m) m 0 (copy 0 m n 0 ks f.keys) in
    record {
      left = record {
        keys = fill 0 (order - n) n 0 (copy 0 n 0 0 ks l.keys);
        inodes = fill no_inode (order - n) n no_inode (copy no_inode n 0 0 is l.inodes);
        count = n;
        dirty = true;
      };
      right = record {
        keys = right_keys;
        inodes = fill no_inode (order - m) m no_inode (copy no_inode m n 0 is f.inodes);
        count = m;
        dirty = true;
      };
      separator = get_or right_keys 0 0 % 2 ^ 16;
    }

-- The test `key < keys[i - 1]` that tells that the key is not there.
unfoldable pub is_missing : ℕ → List ℕ → ℕ → Bool
is_missing i keys key = ltb 0 i && ltb key (get_or keys (i - 1) 0)

-- `removeEntryFromNode` on a leaf.
unfoldable pub remove_from_leaf : ℕ → Leaf → ℕ → Result × Leaf
remove_from_leaf order l key =
    let i : ℕ = key_index l.count 0 l.keys key in
    let moved : ℕ = l.count - (i + 1) in
    let n : ℕ = (l.count + 2 ^ 16 - 1) % 2 ^ 16 in
    if is_missing i l.keys key then (bug, l) else (
      ok,
      record {
        keys = fill 0 (order - n) n 0 (shift_down 0 moved (i + 1) l.keys);
        inodes = fill no_inode (order - n) n no_inode (shift_down no_inode moved (i + 1) l.inodes);
        count = n;
        dirty = true;
      },
    )

-- `coalesceNodes` on leaves: `from` is appended to `to`.
unfoldable pub coalesce_leaves : Leaf → Leaf → Leaf
coalesce_leaves from to = record {
  keys = copy 0 from.count 0 to.count from.keys to.keys;
  inodes = copy no_inode from.count 0 to.count from.inodes to.inodes;
  count = to.count + from.count;
  dirty = true;
}

-- `redistributeNodes` on leaves: the last entry of the left neighbor becomes the node's first. The
-- separator is what `keys[kPrimeIndex]` of the parent becomes.
unfoldable pub take_from_left : Leaf → Leaf → Split
take_from_left neighbor n =
    let last : ℕ = neighbor.count - 1 in
    record {
      left = record {
        keys = neighbor.keys;
        inodes = set neighbor.inodes last no_inode;
        count = last;
        dirty = true;
      };
      right = record {
        keys = set (shift_up 0 n.count n.count n.keys) 0 (get_or neighbor.keys last 0);
        inodes =
            set (shift_up no_inode n.count n.count n.inodes) 0
              (get_or neighbor.inodes last no_inode);
        count = n.count + 1;
        dirty = true;
      };
      separator = get_or neighbor.keys last 0;
    }

-- The first entry of the right neighbor becomes the node's last.
unfoldable pub take_from_right : Leaf → Leaf → Split
take_from_right n neighbor = record {
  left = record {
    keys = set n.keys n.count (get_or neighbor.keys 0 0);
    inodes = set n.inodes n.count (get_or neighbor.inodes 0 no_inode);
    count = n.count + 1;
    dirty = true;
  };
  right = record {
    keys = shift_down 0 (neighbor.count - 1) 1 neighbor.keys;
    inodes = shift_down no_inode (neighbor.count - 1) 1 neighbor.inodes;
    count = neighbor.count - 1;
    dirty = true;
  };
  separator = get_or neighbor.keys 1 0;
}
