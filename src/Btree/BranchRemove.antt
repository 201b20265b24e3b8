-- ===== src/Btree/BranchRemove.antt =====
-- src/btree.cpp, `removeEntryFromNode` on branches, as lists of keys and children.
use paffs.Prelude.{
  ℕ, zero, suc, ◌+◌, ◌-◌, ◌%◌, ◌^◌, ◌≤◌, ◌<◌, ◌≡◌, ◌≢◌, ◌==◌, ==-ne, ℕ_discrete, get_or, sym, ap,
  subst, ◌∙◌, true, false, List, none, arith, length, remove_at, cells, cells-fill, cells-remove,
  length-shift_down, shift_down, fill,
}
use paffs.Types.{Result, ok}
use paffs.Btree.{Branch}
use paffs.Btree.Leaves.{key_index, is_missing}
use paffs.Btree.Branches.{remove_from_branch}
use paffs.Btree.BranchLaws.{IsBranch, Holds, keys_of, pointers_of, children_of}

-- The keys before the index are other ones.
key_index-first :
    (keys : List ℕ) (key r i pos : ℕ)
    → i ≤ pos
    → pos < i + r
    → get_or keys pos 0 ≡ key
    → ((j : ℕ) → i ≤ j → j < pos → get_or keys j 0 ≢ key)
    → key_index r i keys key ≡ pos
unfolding key_index
key_index-first keys key zero i pos low high at before = absurd (omega arith)
key_index-first keys key (suc r) i pos low high at before = elim (ℕ_discrete i pos) [
  | yes e ↦
      let here : get_or keys i 0 ≡ key = ap (λ k. get_or keys k 0) e ∙ at in
      rw (here) (ground (arith, e))
  | no ne ↦
      let away : (get_or keys i 0 == key) ≡ false =
        ==-ne (get_or keys i 0) key (before i (omega arith) (omega (arith, ne))) in
      rw away (
        key_index-first keys key r (i + 1) pos (omega (arith, ne)) (omega arith) at
          (λ j from to. before j (omega arith) to))
]

-- `removeEntryFromNode` with the key at `i`: the key goes, and the child behind it.
module _ (order : ℕ) (b : Branch) (key : ℕ) (branch : IsBranch order b) (u16_order : order < 2 ^ 16)
    (found : key_index b.count 0 b.keys key < b.count)
    (after : is_missing (key_index b.count 0 b.keys key) b.keys key ≡ false) where
  unfoldable pruned : Branch
  pruned =
      let i : ℕ = key_index b.count 0 b.keys key in
      let moved : ℕ = b.count - (i + 1) in
      let n : ℕ = b.count - 1 in
      record {
        keys = fill 0 (order - (n + 1)) n 0 (shift_down 0 moved (i + 1) b.keys);
        pointers = fill 0 (order - (n + 1)) (n + 1) 0 (shift_down 0 moved (i + 2) b.pointers);
        children =
            fill none (order - (n + 1)) (n + 1) none (shift_down none moved (i + 2) b.children);
        count = n;
        dirty = true;
      }

  remove-pruned : remove_from_branch order b key ≡ (ok, pruned)
  unfolding remove_from_branch pruned IsBranch
  remove-pruned =
      let one_fewer : (b.count + 2 ^ 16 - 1) % 2 ^ 16 ≡ b.count - 1 =
        omega (arith, branch, found) in
      ground (arith, after, one_fewer)

  link-remove :
      {A : Type 0} (d : A) (a : List A) (i : ℕ)
      → length a ≡ order
      → i < b.count
      → b.count < order
      → cells d (b.count - 1 + 1) 0 (
          fill d
            (order - (b.count - 1 + 1))
            (b.count - 1 + 1)
            d
            (shift_down d (b.count - (i + 1)) (i + 2) a))
        ≡ remove_at (i + 1) (cells d (b.count + 1) 0 a)
  link-remove d a i len lt in_order =
      let all_but_one : b.count - 1 + 1 ≡ b.count = omega arith in
      let next : i + 2 ≡ i + 1 + 1 = omega arith in
      cells-fill d _ (b.count - 1 + 1) 0 (order - (b.count - 1 + 1)) (b.count - 1 + 1) d
        (omega arith) (omega (arith, len, length-shift_down d (b.count - (i + 1)) (i + 2) a))
      ∙ ap (λ k. cells d k 0 (shift_down d (b.count - (i + 1)) (i + 2) a)) all_but_one
      ∙ ap (λ k. cells d b.count 0 (shift_down d (b.count - (i + 1)) k a)) next
      ∙ cells-remove d a b.count (i + 1) (omega arith) (omega arith)

  pruned-Holds :
      Holds pruned
        (remove_at (key_index b.count 0 b.keys key) (keys_of b))
        (remove_at (key_index b.count 0 b.keys key + 1) (pointers_of b))
        (remove_at (key_index b.count 0 b.keys key + 1) (children_of b))
  unfolding keys_of pointers_of children_of pruned IsBranch
  pruned-Holds = record {
    keys =
        let one_fewer : b.count - (key_index b.count 0 b.keys key + 1)
            ≡ b.count - 1 - key_index b.count 0 b.keys key =
          omega (arith, found) in
        let all_but_one : b.count - 1 + 1 ≡ b.count = omega (arith, found) in
        cells-fill 0 _ (b.count - 1) 0 (order - (b.count - 1 + 1)) (b.count - 1) 0 (omega arith) (
          omega (
            arith,
            found,
            branch,
            length-shift_down 0 (b.count - (key_index b.count 0 b.keys key + 1))
                (key_index b.count 0 b.keys key + 1) b.keys,
          ))
        ∙ ap
            (λ r.
              cells 0 (b.count - 1) 0 (shift_down 0 r (key_index b.count 0 b.keys key + 1) b.keys))
            one_fewer
        ∙ cells-remove 0 b.keys (b.count - 1) (key_index b.count 0 b.keys key)
            (omega (arith, found)) (omega (arith, found, branch))
        ∙ ap (λ n. remove_at (key_index b.count 0 b.keys key) (cells 0 n 0 b.keys)) all_but_one;
    pointers = link-remove 0 b.pointers _ branch.1 found branch.3;
    children = link-remove none b.children _ branch.2 found branch.3;
  }

  remove_from_branch-ok : (remove_from_branch order b key).0 ≡ ok
  remove_from_branch-ok = ap (λ r. r.0) remove-pruned

  remove_found-Holds :
      Holds
        (remove_from_branch order b key).1
        (remove_at (key_index b.count 0 b.keys key) (keys_of b))
        (remove_at (key_index b.count 0 b.keys key + 1) (pointers_of b))
        (remove_at (key_index b.count 0 b.keys key + 1) (children_of b))
  remove_found-Holds =
      subst
        (λ (r : Result × Branch).
          Holds r.1 (remove_at (key_index b.count 0 b.keys key) (keys_of b))
            (remove_at (key_index b.count 0 b.keys key + 1) (pointers_of b))
            (remove_at (key_index b.count 0 b.keys key + 1) (children_of b)))
        (sym remove-pruned) pruned-Holds

-- From a well-formed branch of an order below 65536 whose keys increase, and which has the key at a
-- place: `removeEntryFromNode` answers ok, and takes away just that key and the child behind it.
pub remove_from_branch-Holds :
    (order : ℕ) (b : Branch) (key pos : ℕ)
    → IsBranch order b
    → order < 2 ^ 16
    → pos < b.count
    → get_or b.keys pos 0 ≡ key
    → ((i j : ℕ) → i < j → j < b.count → get_or b.keys i 0 < get_or b.keys j 0)
    → ((remove_from_branch order b key).0 ≡ ok)
      × Holds
          (remove_from_branch order b key).1
          (remove_at pos (keys_of b))
          (remove_at (pos + 1) (pointers_of b))
          (remove_at (pos + 1) (children_of b))
unfolding is_missing
remove_from_branch-Holds order b key pos branch u16_order low at increase =
    let index : key_index b.count 0 b.keys key ≡ pos =
      key_index-first b.keys key b.count 0 pos (omega arith) (omega arith) at
        (λ j from to. let less = increase j pos to low in omega (arith, less, at)) in
    let found : key_index b.count 0 b.keys key < b.count = omega (arith, index, low) in
    let after : is_missing (key_index b.count 0 b.keys key) b.keys key ≡ false =
      rw index (ground (arith, at, increase (pos - 1) pos)) in
    (
      remove_from_branch-ok order b key branch u16_order found after,
      rw (← index) (remove_found-Holds order b key branch u16_order found after),
    )
