-- ===== src/Btree/BranchMoves.antt =====
-- src/btree.cpp, `coalesceNodes` and `redistributeNodes` on branches, as lists of keys and children.
use paffs.Prelude.{
  ℕ, ◌+◌, ◌-◌, ◌<◌, ◌≡◌, sym, ap, ◌∙◌, List, [], ◌∷◌, ◌++◌, append_assoc, none, arith, get_or, set,
  length-set, cells, cells-append, cells-last, cells-set_last, cells-front, cells-shift_down,
  cells-first, shift_down,
}
use paffs.Btree.{Branch}
use paffs.Btree.Branches.{coalesce_branches, child_from_left, child_from_right}
use paffs.Btree.BranchLaws.{
  IsBranch, Holds, Holds2, keys_of, pointers_of, children_of, link-append, link-from_left,
  link-from_right,
}

module _ (order : ℕ) where
  -- `coalesceNodes`: the keys of both with the parent's key between, the children of both.
  pub coalesce_branches-Holds :
      (from to : Branch) (separator : ℕ)
      → IsBranch order to
      → to.count + 1 + from.count < order
      → Holds
          (coalesce_branches from to separator)
          (keys_of to ++ (separator ∷ keys_of from))
          (pointers_of to ++ pointers_of from)
          (children_of to ++ children_of from)
  unfolding keys_of pointers_of children_of coalesce_branches IsBranch
  coalesce_branches-Holds from to separator branch fits = record {
    keys =
        cells-append 0 from.keys (set to.keys to.count separator) (to.count + 1) from.count
          (omega (arith, branch, length-set to.keys to.count separator))
        ∙ ap (λ xs. xs ++ cells 0 from.count 0 from.keys)
            (cells-set_last 0 to.keys to.count separator (omega (arith, branch)))
        ∙ append_assoc (cells 0 to.count 0 to.keys) (separator ∷ [])
            (cells 0 from.count 0 from.keys);
    pointers = link-append 0 from.pointers to.pointers to.count from.count (omega (arith, branch));
    children =
        link-append none from.children to.children to.count from.count (omega (arith, branch));
  }

  -- `redistributeNodes`: the last child of the left neighbor moves over the parent's key.
  pub child_from_left-Holds2 :
      (neighbor n : Branch) (separator : ℕ)
      → IsBranch order neighbor
      → IsBranch order n
      → 0 < neighbor.count
      → n.count + 1 < order
      → Holds2
          (child_from_left neighbor n separator).left
          (child_from_left neighbor n separator).right
          (child_from_left neighbor n separator).separator
          (keys_of neighbor ++ (separator ∷ keys_of n))
          (pointers_of neighbor ++ pointers_of n)
          (children_of neighbor ++ children_of n)
  unfolding keys_of pointers_of children_of child_from_left IsBranch
  child_from_left-Holds2 neighbor n separator whole branch some_key room =
      let c : ℕ = neighbor.count in
      let all_but_one : neighbor.count - 1 + 1 ≡ neighbor.count = omega arith in
      let k : ℕ = get_or neighbor.keys (neighbor.count - 1) 0 in
      let before : List ℕ = cells 0 (neighbor.count - 1) 0 neighbor.keys in
      let split_off : cells 0 neighbor.count 0 neighbor.keys ≡ before ++ (k ∷ []) =
        ap (λ m. cells 0 m 0 neighbor.keys) (sym all_but_one)
        ∙ cells-last 0 neighbor.keys (neighbor.count - 1) 0
        ∙ ap (λ m. before ++ (get_or neighbor.keys m 0 ∷ [])) (omega arith) in
      record {
        keys =
            ap (λ xs. before ++ (k ∷ xs))
              (cells-front 0 n.keys n.count separator (omega (arith, branch)))
            ∙ sym (append_assoc before (k ∷ []) (separator ∷ cells 0 n.count 0 n.keys))
            ∙ ap (λ xs. xs ++ (separator ∷ cells 0 n.count 0 n.keys)) (sym split_off);
        pointers =
            link-from_left 0 neighbor.pointers n.pointers neighbor.count n.count some_key
              (omega (arith, branch));
        children =
            link-from_left none neighbor.children n.children neighbor.count n.count some_key
              (omega (arith, branch));
      }

  pub child_from_right-Holds2 :
      (n neighbor : Branch) (separator : ℕ)
      → IsBranch order n
      → IsBranch order neighbor
      → 0 < neighbor.count
      → n.count + 1 < order
      → Holds2
          (child_from_right n neighbor separator).left
          (child_from_right n neighbor separator).right
          (child_from_right n neighbor separator).separator
          (keys_of n ++ (separator ∷ keys_of neighbor))
          (pointers_of n ++ pointers_of neighbor)
          (children_of n ++ children_of neighbor)
  unfolding keys_of pointers_of children_of child_from_right IsBranch
  child_from_right-Holds2 n neighbor separator branch whole some_key room =
      let all_but_one : neighbor.count - 1 + 1 ≡ neighbor.count = omega arith in
      let k : ℕ = get_or neighbor.keys 0 0 in
      let behind : List ℕ = cells 0 (neighbor.count - 1) 1 neighbor.keys in
      let split_off : cells 0 neighbor.count 0 neighbor.keys ≡ k ∷ behind =
        ap (λ m. cells 0 m 0 neighbor.keys) (sym all_but_one)
        ∙ cells-first 0 neighbor.keys (neighbor.count - 1) in
      record {
        keys =
            ap
              (λ xs.
                xs
                ++ (k
                    ∷ cells 0 (neighbor.count - 1) 0
                        (shift_down 0 (neighbor.count - 1) 1 neighbor.keys)))
              (cells-set_last 0 n.keys n.count separator (omega (arith, branch)))
            ∙ ap (λ xs. (cells 0 n.count 0 n.keys ++ (separator ∷ [])) ++ (k ∷ xs))
                (cells-shift_down 0 neighbor.keys (neighbor.count - 1) (omega (arith, whole)))
            ∙ append_assoc (cells 0 n.count 0 n.keys) (separator ∷ []) (k ∷ behind)
            ∙ ap (λ xs. cells 0 n.count 0 n.keys ++ (separator ∷ xs)) (sym split_off);
        pointers =
            link-from_right 0 n.pointers neighbor.pointers n.count neighbor.count some_key
              (omega (arith, branch)) (omega (arith, whole));
        children =
            link-from_right none n.children neighbor.children n.count neighbor.count some_key
              (omega (arith, branch)) (omega (arith, whole));
      }
