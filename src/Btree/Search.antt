-- ===== src/Btree/Search.antt =====
-- src/btree.cpp, the loops of `findLeaf`, `getLeftIndex` and `getNeighborIndex`.
use paffs.Prelude.{ℕ, zero, suc, ◌+◌, ◌≤◌, ◌<◌, ℕ_discrete, List, arith, get_or}
use paffs.Btree.Branches.{child_index}

-- The search goes to the child behind the last key that is not greater: the keys before it are not
-- greater than the number, the next one is.
pub child_index_bounds :
    (keys : List ℕ) (key r i : ℕ)
    → (i ≤ child_index r i keys key) × (child_index r i keys key ≤ i + r)
unfolding child_index
child_index_bounds keys key zero i = (omega arith, omega arith)
child_index_bounds keys key (suc r) i = ground (arith, child_index_bounds keys key r (i + 1))

pub child_index-before :
    (keys : List ℕ) (key r i j : ℕ) → i ≤ j → j < child_index r i keys key → get_or keys j 0 ≤ key
unfolding child_index
child_index-before keys key zero i j le lt = absurd (omega arith)
child_index-before keys key (suc r) i j le lt = elim (ℕ_discrete i j) [
  | yes e ↦ ground arith
  | no ne ↦ ground (arith, child_index-before keys key r (i + 1) j)
]

pub child_index-next :
    (keys : List ℕ) (key r i : ℕ)
    → child_index r i keys key < i + r
    → key < get_or keys (child_index r i keys key) 0
unfolding child_index
child_index-next keys key zero i lt = absurd (omega arith)
child_index-next keys key (suc r) i lt = ground (arith, child_index-next keys key r (i + 1))
