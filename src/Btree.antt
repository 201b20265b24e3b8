-- ===== src/Btree.antt =====
-- src/btree.cpp and src/treeTypes.hpp: the nodes of the B+ tree. A node is a union of a leaf and a
-- branch; here they are two records. The index of inodes is a sorted list of numbers with inodes.
pub mod Leaves
pub mod Steps
pub mod Lists
pub mod Insert
pub mod Split
pub mod Remove
pub mod Merge
pub mod Insertion
pub mod Deletion
pub mod Branches
pub mod BranchLaws
pub mod BranchMoves
pub mod BranchSplit
pub mod BranchRemove
pub mod Search
pub mod BranchSteps
use paffs.Prelude.{
  ℕ, zero, suc, ◌+◌, ◌/◌, ◌%◌, ◌≤◌, ◌<◌, ◌≡◌, Bool, List, [], ◌∷◌, Option, none, some, ltb, ◌==◌,
  if◌then◌else◌, length, get_or, replicate, table,
}
use paffs.Types.{Inode, InodeType, file}

-- What `memset` with zeros leaves of an inode.
abbrev pub no_inode : Inode
no_inode = record {
  no = 0;
  type = file;
  perm = 0;
  reserved_pages = 0;
  size = 0;
  crea = 0;
  modified = 0;
  direct = replicate 11 0;
  indir = 0;
  d_indir = 0;
  t_indir = 0;
}

pub record Leaf : Type 0 where
  pub keys : List ℕ  -- InodeNo[leafOrder]
  pub inodes : List Inode  -- `pInodes`
  pub count : ℕ  -- `raw.keys`
  pub dirty : Bool

-- `pointers` are the flash addresses, `children` the nodes in the cache, `none` for nullptr.
pub record Branch : Type 0 where
  pub keys : List ℕ  -- InodeNo[branchOrder - 1]
  pub pointers : List ℕ
  pub children : List (Option ℕ)
  pub count : ℕ
  pub dirty : Bool

-- `Btree::cut`
unfoldable pub cut : ℕ → ℕ
cut n = if n % 2 == 0 then n / 2 else n / 2 + 1

-- What a leaf holds: the numbers and inodes of its first `count` cells.
unfoldable pub entry : Leaf → ℕ → ℕ × Inode
entry l i = (get_or l.keys i 0, get_or l.inodes i no_inode)

abbrev pub no_entry : ℕ × Inode
no_entry = (0, no_inode)

unfoldable pub entries : Leaf → List (ℕ × Inode)
entries l = table l.count 0 (entry l)

-- The arrays have the order's length, and the cells in use are among them.
unfoldable pub IsLeaf : ℕ → Leaf → Type 0
IsLeaf order l = (length l.keys ≡ order) × (length l.inodes ≡ order) × (l.count ≤ order)

-- The index as a list: strictly ascending numbers.
unfoldable pub IsAbove : ℕ → List (ℕ × Inode) → Type 0
IsAbove n [] = Unit
IsAbove n (e ∷ es) = (n < e.0) × IsAbove e.0 es

unfoldable pub IsSorted : List (ℕ × Inode) → Type 0
IsSorted [] = Unit
IsSorted (e ∷ es) = IsAbove e.0 es

unfoldable pub lookup : ℕ → List (ℕ × Inode) → Option Inode
lookup key [] = none
lookup key (e ∷ es) = if e.0 == key then some e.1 else lookup key es

unfoldable pub insert_sorted : ℕ × Inode → List (ℕ × Inode) → List (ℕ × Inode)
insert_sorted x [] = x ∷ []
insert_sorted x (e ∷ es) = if ltb e.0 x.0 then e ∷ insert_sorted x es else x ∷ e ∷ es

unfoldable pub erase : ℕ → List (ℕ × Inode) → List (ℕ × Inode)
erase key [] = []
erase key (e ∷ es) = if e.0 == key then es else e ∷ erase key es
