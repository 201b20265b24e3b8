-- ===== src/Btree/BranchSplit.antt =====
-- src/btree.cpp, `insertIntoNodeAfterSplitting` as lists of keys and children.
use paffs.Prelude.{
  ℕ, ◌+◌, ◌-◌, ◌%◌, ◌^◌, ◌≤◌, ◌<◌, ◌≡◌, sym, ap, ◌∙◌, List, [], ◌∷◌, ◌++◌, append_assoc, none,
  arith, length, get_or, length-replicate, replicate, insert_at, cells, cells-copy, cells-fill,
  cells-spread_insert, cells-last, table-parts, length-copy, copy, fill,
}
use paffs.Btree.{Branch, cut}
use paffs.Btree.Split.{cut_bounds}
use paffs.Btree.Branches.{Child, split_branch, temp_keys, temp_links}
use paffs.Btree.BranchLaws.{IsBranch, Holds2, keys_of, pointers_of, children_of, halves}

-- Links: the halves of the array with the new child in it.
link-split :
    {A : Type 0} (d : A) (a fresh : List A) (order count n p : ℕ) (v : A)
    → 0 < n
    → n ≤ order
    → p ≤ count
    → count + 1 ≡ order
    → length a ≡ order
    → length fresh ≡ order
    → cells d
          (n - 1 + 1)
          0
          (fill d (order - n) n d (copy d n 0 0 (temp_links d a (count + 1) p v) a))
        ++ cells d
            (order - n + 1)
            0
            (copy d (order - n + 1) n 0 (temp_links d a (count + 1) p v) fresh)
      ≡ insert_at (p + 1) v (cells d (count + 1) 0 a)
unfolding temp_links
link-split d a fresh order count n p v some_left le lt full a_len fresh_len =
    let temp : List _ = temp_links d a (count + 1) p v in
    let all_but_one : n - 1 + 1 ≡ n = omega arith in
    let total : n + (order - n + 1) ≡ count + 1 + 1 = omega arith in
    ap
      (λ k.
        cells d k 0 (fill d (order - n) n d (copy d n 0 0 temp a))
        ++ cells d (order - n + 1) 0 (copy d (order - n + 1) n 0 temp fresh))
      all_but_one
    ∙ halves d temp a fresh n (order - n + 1) order (omega arith) le (omega arith) a_len fresh_len
    ∙ ap (λ k. cells d k 0 temp) total
    ∙ cells-spread_insert d a (count + 1) (p + 1) v (omega arith)

-- Keys: the two halves without the one between them.
key-split :
    (ks left right : List ℕ) (order n : ℕ)
    → 0 < n
    → n < order
    → length left ≡ order - 1
    → length right ≡ order - 1
    → cells 0 (n - 1) 0 (fill 0 (order - 1 - n) n 0 (copy 0 (n - 1) 0 0 ks left))
        ++ (get_or ks (n - 1) 0 ∷ cells 0 (order - n) 0 (copy 0 (order - n) n 0 ks right))
      ≡ cells 0 order 0 ks
unfolding cells
key-split ks left right order n some_left lt left_len right_len =
    let first : cells 0 (n - 1) 0 (fill 0 (order - 1 - n) n 0 (copy 0 (n - 1) 0 0 ks left))
        ≡ cells 0 (n - 1) 0 ks =
      cells-fill 0 _ (n - 1) 0 (order - 1 - n) n 0 (omega arith)
        (omega (arith, left_len, length-copy 0 (n - 1) 0 0 ks left))
      ∙ cells-copy 0 ks left (n - 1) 0 0 (order - 1) left_len (omega arith) in
    let second : cells 0 (order - n) 0 (copy 0 (order - n) n 0 ks right)
        ≡ cells 0 (order - n) n ks =
      cells-copy 0 ks right (order - n) n 0 (order - 1) right_len (omega arith) in
    let at_cut : 0 + (n - 1) ≡ n - 1 = omega arith in
    let after_cut : 0 + (n - 1 + 1) ≡ n = omega arith in
    let total : n - 1 + 1 + (order - n) ≡ order = omega arith in
    let parts : cells 0 (n - 1 + 1 + (order - n)) 0 ks
        ≡ cells 0 (n - 1 + 1) 0 ks ++ cells 0 (order - n) (0 + (n - 1 + 1)) ks =
      table-parts (n - 1 + 1) (order - n) 0 (λ j. get_or ks j 0) in
    let upto : cells 0 (n - 1 + 1) 0 ks ≡ cells 0 (n - 1) 0 ks ++ (get_or ks (n - 1) 0 ∷ []) =
      cells-last 0 ks (n - 1) 0 ∙ ap (λ k. cells 0 (n - 1) 0 ks ++ (get_or ks k 0 ∷ [])) at_cut in
    ap (λ xs. xs ++ (get_or ks (n - 1) 0 ∷ cells 0 (order - n) 0 (copy 0 (order - n) n 0 ks right)))
      first
    ∙ ap (λ xs. cells 0 (n - 1) 0 ks ++ (get_or ks (n - 1) 0 ∷ xs)) second
    ∙ sym
        (append_assoc (cells 0 (n - 1) 0 ks) (get_or ks (n - 1) 0 ∷ []) (cells 0 (order - n) n ks))
    ∙ ap (λ xs. xs ++ cells 0 (order - n) n ks) (sym upto)
    ∙ ap (λ k. cells 0 (n - 1 + 1) 0 ks ++ cells 0 (order - n) k ks) (sym after_cut)
    ∙ sym parts
    ∙ ap (λ k. cells 0 k 0 ks) total

module _ (order : ℕ) (b : Branch) (left key : ℕ) (right : Child) (branch : IsBranch order b)
    (full : b.count + 1 ≡ order) (two : 1 < order) (le : left ≤ b.count) where
  -- If the key at the cut fits 16 bits, it is the separator of the two halves.
  pub split_branch-Holds2 :
      get_or (temp_keys b left key) (cut order - 1) 0 < 2 ^ 16
      → Holds2
          (split_branch order b left key right).left
          (split_branch order b left key right).right
          (split_branch order b left key right).separator
          (insert_at left key (keys_of b))
          (insert_at (left + 1) right.self (pointers_of b))
          (insert_at (left + 1) right.cached (children_of b))
  unfolding keys_of pointers_of children_of split_branch IsBranch temp_keys
  split_branch-Holds2 small =
      let some_left : 0 < cut order = omega (arith, cut_bounds order) in
      let in_order : cut order < order = omega (arith, cut_bounds order) in
      let exact : get_or (temp_keys b left key) (cut order - 1) 0 % 2 ^ 16
          ≡ get_or (temp_keys b left key) (cut order - 1) 0 =
        omega (arith, small) in
      record {
        keys =
            ap
              (λ k.
                cells 0 (cut order - 1) 0 (
                  fill 0 (order - 1 - cut order) (cut order) 0
                    (copy 0 (cut order - 1) 0 0 (temp_keys b left key) b.keys))
                ++ (k
                    ∷ cells 0 (order - cut order) 0 (
                        copy 0 (order - cut order) (cut order) 0 (temp_keys b left key)
                          (replicate (order - 1) 0))))
              exact
            ∙ key-split (temp_keys b left key) b.keys (replicate (order - 1) 0) order (cut order)
                some_left in_order branch.0 (length-replicate (order - 1) _)
            ∙ ap (λ k. cells 0 k 0 (temp_keys b left key)) (sym full)
            ∙ cells-spread_insert 0 b.keys b.count left key le;
        pointers =
            link-split 0 b.pointers (replicate order 0) order b.count (cut order) left right.self
              some_left (omega arith) le full branch.1 (length-replicate order _);
        children =
            link-split none b.children (replicate order none) order b.count (cut order) left
              right.cached some_left (omega arith) le full branch.2 (length-replicate order _);
      }
