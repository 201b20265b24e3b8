-- ===== src/Btree/Branches.antt =====
-- src/btree.cpp: the operations on the branches of the B+ tree. `order` is `branchOrder`; a branch
-- with `count` keys has one child more. A child is given by its flash address (`raw.self`) and its
-- place in the cache. That the moved children then point to their new parent is not modelled.
use paffs.Prelude.{
  ℕ, zero, suc, ◌+◌, ◌-◌, ◌%◌, ◌^◌, Bool, true, false, ◌&&◌, ◌||◌, not, List, Option, none, some,
  leb, ◌==◌, if◌then◌else◌, get_or, set, replicate, shift_up, shift_down, copy, spread, fill,
}
use paffs.Types.{Result, ok, bug}
use paffs.Btree.{Branch, cut}
use paffs.Btree.Leaves.{key_index, is_missing}

pub record Child : Type 0 where
  pub self : ℕ
  pub cached : Option ℕ

abbrev pub fresh_branch : ℕ → Branch
fresh_branch order = record {
  keys = replicate (order - 1) 0;
  pointers = replicate order 0;
  children = replicate order none;
  count = 0;
  dirty = false;
}

-- The inner loop of `findLeaf`: how many of `r` keys from `i` on the number has passed.
unfoldable pub child_index : ℕ → ℕ → List ℕ → ℕ → ℕ
child_index zero i keys key = i
child_index (suc r) i keys key =
    let rest : ℕ = child_index r (i + 1) keys key in if leb (get_or keys i 0) key then rest else i

abbrev is_cached : ℕ → Option ℕ → Bool
is_cached n none = false
is_cached n (some m) = m == n

-- Whether the child `i` is the node, by its address, if both have one, or by its place.
unfoldable pub is_child : Branch → ℕ → Child → ℕ → Bool
is_child b n left i =
    let address : ℕ = get_or b.pointers i 0 in
    (not (address == 0) && (address == left.self)) || is_cached n (get_or b.children i none)

-- `getLeftIndex`, by the address and the place `n` of the left node.
unfoldable pub left_index : ℕ → ℕ → Branch → ℕ → Child → ℕ
left_index zero i b n left = i
left_index (suc r) i b n left =
    let rest : ℕ = left_index r (i + 1) b n left in if is_child b n left i then i else rest

unfoldable pub get_left_index : Branch → ℕ → Child → ℕ
get_left_index b n left = left_index b.count 0 b n left

-- `getNeighborIndex`: `none` is -1, for the leftmost child and for a node that is not there.
unfoldable pub neighbor_index : ℕ → ℕ → Branch → ℕ → Option ℕ
neighbor_index zero i b n = none
neighbor_index (suc r) i b n =
    let rest : Option ℕ = neighbor_index r (i + 1) b n in
    if is_cached n (get_or b.children i none) then (if i == 0 then none else some (i - 1)) else rest

unfoldable pub get_neighbor_index : Branch → ℕ → Option ℕ
get_neighbor_index b n = neighbor_index (b.count + 1) 0 b n

unfoldable pub insert_into_node : Branch → ℕ → ℕ → Child → Branch
insert_into_node b left key right =
    let moved : ℕ = b.count - left in
    record {
      keys = set (shift_up 0 moved b.count b.keys) left key;
      pointers = set (shift_up 0 moved (b.count + 1) b.pointers) (left + 1) right.self;
      children = set (shift_up none moved (b.count + 1) b.children) (left + 1) right.cached;
      count = b.count + 1;
      dirty = true;
    }

pub record SplitBranch : Type 0 where
  pub left : Branch
  pub right : Branch
  pub separator : ℕ  -- uint16_t kPrime, or the key written to the parent

-- The arrays of `insertIntoNodeAfterSplitting` with the new key and child in their places. All
-- cells that are read are written before.
unfoldable pub temp_keys : Branch → ℕ → ℕ → List ℕ
temp_keys b left key = set (spread 0 b.count left 0 0 b.keys (replicate (b.count + 1) 0)) left key

unfoldable pub temp_links : {A : Type 0} → A → List A → ℕ → ℕ → A → List A
temp_links d links n left right =
    set (spread d n (left + 1) 0 0 links (replicate (n + 1) d)) (left + 1) right

unfoldable pub split_branch : ℕ → Branch → ℕ → ℕ → Child → SplitBranch
split_branch order b left key right =
    let n : ℕ = cut order in
    let ks : List ℕ = temp_keys b left key in
    let ps : List ℕ = temp_links 0 b.pointers (b.count + 1) left right.self in
    let cs : List (Option ℕ) = temp_links none b.children (b.count + 1) left right.cached in
    let f : Branch = fresh_branch order in
    record {
      left = record {
        keys = fill 0 (order - 1 - n) n 0 (copy 0 (n - 1) 0 0 ks b.keys);
        pointers = fill 0 (order - n) n 0 (copy 0 n 0 0 ps b.pointers);
        children = fill none (order - n) n none (copy none n 0 0 cs b.children);
        count = n - 1;
        dirty = true;
      };
      right = record {
        keys = copy 0 (order - n) n 0 ks f.keys;
        pointers = copy 0 (order - n + 1) n 0 ps f.pointers;
        children = copy none (order - n + 1) n 0 cs f.children;
        count = order - n;
        dirty = true;
      };
      separator = get_or ks (n - 1) 0 % 2 ^ 16;
    }

-- `insertIntoNewRoot`
unfoldable pub new_root : ℕ → Child → ℕ → Child → Branch
new_root order left key right =
    let f : Branch = fresh_branch order in
    record {
      keys = set f.keys 0 key;
      pointers = set (set f.pointers 0 left.self) 1 right.self;
      children = set (set f.children 0 left.cached) 1 right.cached;
      count = 1;
      dirty = true;
    }

-- `removeEntryFromNode` on a branch: the key and the child behind it.
unfoldable pub remove_from_branch : ℕ → Branch → ℕ → Result × Branch
remove_from_branch order b key =
    let i : ℕ = key_index b.count 0 b.keys key in
    let moved : ℕ = b.count - (i + 1) in
    let n : ℕ = (b.count + 2 ^ 16 - 1) % 2 ^ 16 in
    if is_missing i b.keys key then (bug, b) else (
      ok,
      record {
        keys = fill 0 (order - (n + 1)) n 0 (shift_down 0 moved (i + 1) b.keys);
        pointers = fill 0 (order - (n + 1)) (n + 1) 0 (shift_down 0 moved (i + 2) b.pointers);
        children =
            fill none (order - (n + 1)) (n + 1) none (shift_down none moved (i + 2) b.children);
        count = n;
        dirty = true;
      },
    )

-- `coalesceNodes` on branches: `from` is appended to `to`, with the parent's key between them.
unfoldable pub coalesce_branches : Branch → Branch → ℕ → Branch
coalesce_branches from to separator = record {
  keys = copy 0 from.count 0 (to.count + 1) from.keys (set to.keys to.count separator);
  pointers = copy 0 (from.count + 1) 0 (to.count + 1) from.pointers to.pointers;
  children = copy none (from.count + 1) 0 (to.count + 1) from.children to.children;
  count = to.count + 1 + from.count;
  dirty = true;
}

-- `redistributeNodes` on branches: the left neighbor's last child becomes the node's first, below
-- the parent's key.
unfoldable pub child_from_left : Branch → Branch → ℕ → SplitBranch
child_from_left neighbor n separator =
    let last : ℕ = neighbor.count in
    record {
      left = record {
        keys = neighbor.keys;
        pointers = set neighbor.pointers last 0;
        children = set neighbor.children last none;
        count = last - 1;
        dirty = true;
      };
      right = record {
        keys = set (shift_up 0 n.count n.count n.keys) 0 separator;
        pointers =
            set (shift_up 0 (n.count + 1) (n.count + 1) n.pointers) 0
              (get_or neighbor.pointers last 0);
        children =
            set (shift_up none (n.count + 1) (n.count + 1) n.children) 0
              (get_or neighbor.children last none);
        count = n.count + 1;
        dirty = true;
      };
      separator = get_or neighbor.keys (last - 1) 0;
    }

-- The right neighbor's first child becomes the node's last.
unfoldable pub child_from_right : Branch → Branch → ℕ → SplitBranch
child_from_right n neighbor separator = record {
  left = record {
    keys = set n.keys n.count separator;
    pointers = set n.pointers (n.count + 1) (get_or neighbor.pointers 0 0);
    children = set n.children (n.count + 1) (get_or neighbor.children 0 none);
    count = n.count + 1;
    dirty = true;
  };
  right = record {
    keys = shift_down 0 (neighbor.count - 1) 1 neighbor.keys;
    pointers = shift_down 0 neighbor.count 1 neighbor.pointers;
    children = shift_down none neighbor.count 1 neighbor.children;
    count = neighbor.count - 1;
    dirty = true;
  };
  separator = get_or neighbor.keys 0 0;
}
