-- ===== src/Btree/BranchSteps.antt =====
-- src/btree.cpp, `deleteEntry` on a branch below the root and its neighbor: all its branches.
use paffs.Prelude.{
  ℕ, ◌+◌, ◌-◌, ◌≤◌, ◌<◌, ◌≡◌, refl, Bool, true, false, List, ◌∷◌, ◌++◌, Option, arith, leb,
  if◌then◌else◌, if-elim, u16,
}
use paffs.Types.{Result, ok}
use paffs.Btree.{Branch, cut}
use paffs.Btree.Split.{cut_bounds}
use paffs.Btree.Branches.{
  SplitBranch, remove_from_branch, coalesce_branches, child_from_left, child_from_right,
}
use paffs.Btree.BranchLaws.{IsBranch, Holds, Holds2, keys_of, pointers_of, children_of}
use paffs.Btree.BranchMoves.{
  coalesce_branches-Holds, child_from_left-Holds2, child_from_right-Holds2,
}

pub data Deleted : Type 0 where
  failed : Result → Deleted
  kept : Branch → Deleted
  merged : Branch → Deleted
  redistributed : SplitBranch → Deleted

-- `separator` is the key of the parent between the two, and `kPrime`, which has 16 bits, takes it.
unfoldable pub rebalance : ℕ → Bool → Branch → ℕ → Branch → Deleted
rebalance order is_leftmost neighbor separator n =
    let k_prime : ℕ = u16 separator in
    if leb (cut order - 1) n.count
    then kept n
    else if leb (neighbor.count + n.count) (order - 2)
    then (if is_leftmost
        then merged (coalesce_branches neighbor n k_prime)
        else merged (coalesce_branches n neighbor k_prime))
    else if is_leftmost
    then redistributed (child_from_right n neighbor k_prime)
    else redistributed (child_from_left neighbor n k_prime)

abbrev when_ok : Result → Deleted → Deleted
when_ok ok d = d
when_ok r d = failed r

unfoldable pub delete_from_branch : ℕ → Bool → Branch → ℕ → Branch → ℕ → Deleted
delete_from_branch order is_leftmost neighbor separator n key =
    let r : Result × Branch = remove_from_branch order n key in
    when_ok r.0 (rebalance order is_leftmost neighbor separator r.1)

-- A branch has at least half of the children that fit, and one key fewer than children.
unfoldable pub IsHalfFull : ℕ → Branch → Type 0
IsHalfFull order b = (cut order ≤ b.count + 1) × (b.count < order)

-- What is left of two branches that held these keys, with the separator between, and these
-- children; if one was kept, nothing moved.
unfoldable pub IsRebalanced : ℕ → Branch → List ℕ → List ℕ → List (Option ℕ) → Deleted → Type 0
IsRebalanced order n ks ps cs (failed r) = ⊥
IsRebalanced order n ks ps cs (kept b) = (b ≡ n) × IsHalfFull order b
IsRebalanced order n ks ps cs (merged b) = Holds b ks ps cs × IsHalfFull order b
IsRebalanced order n ks ps cs (redistributed s) =
    Holds2 s.left s.right s.separator ks ps cs
    × (IsHalfFull order s.left × IsHalfFull order s.right)

module _ (order : ℕ) (neighbor n : Branch) (separator : ℕ) (whole : IsBranch order neighbor)
    (branch : IsBranch order n) (half : IsHalfFull order neighbor) (below : cut order ≤ n.count + 2)
    (three : 2 < order) (u16_separator : separator < 65536) where
  -- With a neighbor to the right.
  pub rebalance_right-IsRebalanced :
      IsRebalanced order n
        (keys_of n ++ (separator ∷ keys_of neighbor))
        (pointers_of n ++ pointers_of neighbor)
        (children_of n ++ children_of neighbor)
        (rebalance order true neighbor separator n)
  unfolding IsRebalanced rebalance IsHalfFull IsBranch coalesce_branches child_from_right
  rebalance_right-IsRebalanced =
      let k_prime : u16 separator ≡ separator = omega (arith, u16_separator) in
      rw k_prime (
        let P : Deleted → Type 0 =
          IsRebalanced order n (keys_of n ++ (separator ∷ keys_of neighbor))
            (pointers_of n ++ pointers_of neighbor) (children_of n ++ children_of neighbor) in
        if-elim P (leb (cut order - 1) n.count) _ _ (λ t. (refl, (ground arith, branch.3)))
          (λ low.
            if-elim P (leb (neighbor.count + n.count) (order - 2)) _ _
              (λ fits. (
                coalesce_branches-Holds order neighbor n separator branch (ground arith),
                (omega (arith, half), ground arith),
              ))
              (λ full.
                let few : n.count + 1 < cut order = ground arith in
                let many : order < neighbor.count + n.count + 2 = ground arith in
                (
                  child_from_right-Holds2 order n neighbor separator branch whole
                      (omega (arith, cut_bounds order)) (omega (arith, cut_bounds order)),
                  (
                    (omega arith, omega (arith, cut_bounds order)),
                    (omega (arith, cut_bounds order), omega (arith, half)),
                  ),
                ))))

  -- With a neighbor to the left.
  pub rebalance_left-IsRebalanced :
      IsRebalanced order n
        (keys_of neighbor ++ (separator ∷ keys_of n))
        (pointers_of neighbor ++ pointers_of n)
        (children_of neighbor ++ children_of n)
        (rebalance order false neighbor separator n)
  unfolding IsRebalanced rebalance IsHalfFull IsBranch coalesce_branches child_from_left
  rebalance_left-IsRebalanced =
      let k_prime : u16 separator ≡ separator = omega (arith, u16_separator) in
      rw k_prime (
        let P : Deleted → Type 0 =
          IsRebalanced order n (keys_of neighbor ++ (separator ∷ keys_of n))
            (pointers_of neighbor ++ pointers_of n) (children_of neighbor ++ children_of n) in
        if-elim P (leb (cut order - 1) n.count) _ _ (λ t. (refl, (ground arith, branch.3)))
          (λ low.
            if-elim P (leb (neighbor.count + n.count) (order - 2)) _ _
              (λ fits. (
                coalesce_branches-Holds order n neighbor separator whole (ground arith),
                (omega (arith, half), ground arith),
              ))
              (λ full.
                let few : n.count + 1 < cut order = ground arith in
                let many : order < neighbor.count + n.count + 2 = ground arith in
                (
                  child_from_left-Holds2 order neighbor n separator whole branch
                      (omega (arith, cut_bounds order)) (omega (arith, cut_bounds order)),
                  (
                    (omega (arith, cut_bounds order), omega (arith, half)),
                    (omega arith, omega (arith, cut_bounds order)),
                  ),
                ))))

  -- For two well-formed neighbors of an order above two, of which one is half full and the other
  -- lacks one child at most, and a separator below 65536: whatever is done to the two, they hold the
  -- same, and each is at least half full.
  pub rebalance-IsRebalanced :
      (is_leftmost : Bool)
      → IsRebalanced order n
          (if is_leftmost
            then keys_of n ++ (separator ∷ keys_of neighbor)
            else keys_of neighbor ++ (separator ∷ keys_of n))
          (if is_leftmost
            then pointers_of n ++ pointers_of neighbor
            else pointers_of neighbor ++ pointers_of n)
          (if is_leftmost
            then children_of n ++ children_of neighbor
            else children_of neighbor ++ children_of n)
          (rebalance order is_leftmost neighbor separator n)
  rebalance-IsRebalanced true = rebalance_right-IsRebalanced
  rebalance-IsRebalanced false = rebalance_left-IsRebalanced
