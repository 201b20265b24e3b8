-- ===== src/Btree/BranchLaws.antt =====
-- src/btree.cpp, the operations on branches as edits of the lists of keys and of children.
use paffs.Prelude.{
  ℕ, ◌+◌, ◌-◌, ◌≤◌, ◌<◌, ◌≡◌, sym, ap, ◌∙◌, List, [], ◌∷◌, ◌++◌, append_assoc, Option, none, arith,
  length, get_or, set, insert_at, cells, cells-insert, cells-copy, cells-append, cells-fill,
  cells-set, cells-last, cells-set_last, cells-front, cells-shift_down, cells-first, table-parts,
  length-copy, shift_up, shift_down, copy, fill,
}
use paffs.Btree.{Branch}
use paffs.Btree.Branches.{Child, insert_into_node}

unfoldable pub IsBranch : ℕ → Branch → Type 0
IsBranch order b =
    (length b.keys ≡ order - 1)
    × (length b.pointers ≡ order)
    × (length b.children ≡ order)
    × (b.count < order)

-- The keys in use, and the children as addresses and as places in the cache.
unfoldable pub keys_of : Branch → List ℕ
keys_of b = cells 0 b.count 0 b.keys

unfoldable pub pointers_of : Branch → List ℕ
pointers_of b = cells 0 (b.count + 1) 0 b.pointers

unfoldable pub children_of : Branch → List (Option ℕ)
children_of b = cells none (b.count + 1) 0 b.children

-- A branch with these keys and children.
pub record Holds (b : Branch) (ks ps : List ℕ) (cs : List (Option ℕ)) : Type 0 where
  pub keys : keys_of b ≡ ks
  pub pointers : pointers_of b ≡ ps
  pub children : children_of b ≡ cs

-- Two branches that hold, one after the other, these keys with the separator between, and these
-- children.
pub record Holds2 (a b : Branch) (separator : ℕ) (ks ps : List ℕ) (cs : List (Option ℕ))
    : Type 0 where
  pub keys : keys_of a ++ (separator ∷ keys_of b) ≡ ks
  pub pointers : pointers_of a ++ pointers_of b ≡ ps
  pub children : children_of a ++ children_of b ≡ cs

-- The loops on an array of addresses or places, by the number of keys.
module _ {A : Type 0} (d : A) where
  pub link-insert :
      (a : List A) (count p : ℕ) (v : A)
      → p ≤ count
      → count + 1 < length a
      → cells d (count + 1 + 1) 0 (set (shift_up d (count - p) (count + 1) a) (p + 1) v)
        ≡ insert_at (p + 1) v (cells d (count + 1) 0 a)
  link-insert a count p v le lt =
      let same_rounds : count + 1 - (p + 1) ≡ count - p = omega arith in
      ap (λ r. cells d (count + 1 + 1) 0 (set (shift_up d r (count + 1) a) (p + 1) v))
        (sym same_rounds)
      ∙ cells-insert d a (count + 1) (p + 1) v (omega arith) lt

  -- The two halves of an array of `n + m` cells.
  pub halves :
      (temp left right : List A) (n m order : ℕ)
      → n + m ≤ order + 1
      → n ≤ order
      → m ≤ order
      → length left ≡ order
      → length right ≡ order
      → cells d n 0 (fill d (order - n) n d (copy d n 0 0 temp left))
          ++ cells d m 0 (copy d m n 0 temp right)
        ≡ cells d (n + m) 0 temp
  unfolding cells
  halves temp left right n m order fit n_fits m_fits left_len right_len =
      let first : cells d n 0 (fill d (order - n) n d (copy d n 0 0 temp left)) ≡ cells d n 0 temp =
        cells-fill d _ n 0 (order - n) n d (omega arith)
          (omega (arith, left_len, length-copy d n 0 0 temp left))
        ∙ cells-copy d temp left n 0 0 order left_len (omega arith) in
      let second : cells d m 0 (copy d m n 0 temp right) ≡ cells d m n temp =
        cells-copy d temp right m n 0 order right_len (omega arith) in
      let start : 0 + n ≡ n = omega arith in
      ap (λ xs. xs ++ cells d m 0 (copy d m n 0 temp right)) first
      ∙ ap (λ xs. cells d n 0 temp ++ xs) (second ∙ ap (λ k. cells d m k temp) (sym start))
      ∙ sym (table-parts n m 0 (λ j. get_or temp j d))

  pub link-append :
      (from to : List A) (m n : ℕ)
      → m + 1 + (n + 1) ≤ length to
      → cells d (m + 1 + n + 1) 0 (copy d (n + 1) 0 (m + 1) from to)
        ≡ cells d (m + 1) 0 to ++ cells d (n + 1) 0 from
  link-append from to m n le =
      let together : m + 1 + n + 1 ≡ m + 1 + (n + 1) = omega arith in
      ap (λ k. cells d k 0 (copy d (n + 1) 0 (m + 1) from to)) together
      ∙ cells-append d from to (m + 1) (n + 1) le

  pub link-from_left :
      (a b : List A) (c m : ℕ)
      → 0 < c
      → m + 1 < length b
      → cells d (c - 1 + 1) 0 (set a c d)
          ++ cells d (m + 1 + 1) 0 (set (shift_up d (m + 1) (m + 1) b) 0 (get_or a c d))
        ≡ cells d (c + 1) 0 a ++ cells d (m + 1) 0 b
  link-from_left a b c m some_key lt =
      let all_but_one : c - 1 + 1 ≡ c = omega arith in
      let zero_plus : 0 + c ≡ c = omega arith in
      let left : cells d (c - 1 + 1) 0 (set a c d) ≡ cells d c 0 a =
        ap (λ k. cells d k 0 (set a c d)) all_but_one ∙ cells-set d a c 0 c d (omega arith) in
      let whole : cells d (c + 1) 0 a ≡ cells d c 0 a ++ (get_or a c d ∷ []) =
        cells-last d a c 0 ∙ ap (λ k. cells d c 0 a ++ (get_or a k d ∷ [])) zero_plus in
      ap (λ xs. xs ++ cells d (m + 1 + 1) 0 (set (shift_up d (m + 1) (m + 1) b) 0 (get_or a c d)))
        left
      ∙ ap (λ xs. cells d c 0 a ++ xs) (cells-front d b (m + 1) (get_or a c d) lt)
      ∙ sym (append_assoc (cells d c 0 a) (get_or a c d ∷ []) (cells d (m + 1) 0 b))
      ∙ ap (λ xs. xs ++ cells d (m + 1) 0 b) (sym whole)

  pub link-from_right :
      (a b : List A) (m c : ℕ)
      → 0 < c
      → m + 1 < length a
      → c < length b
      → cells d (m + 1 + 1) 0 (set a (m + 1) (get_or b 0 d))
          ++ cells d (c - 1 + 1) 0 (shift_down d c 1 b)
        ≡ cells d (m + 1) 0 a ++ cells d (c + 1) 0 b
  link-from_right a b m c some_key lt in_b =
      let all_but_one : c - 1 + 1 ≡ c = omega arith in
      let rest : cells d (c - 1 + 1) 0 (shift_down d c 1 b) ≡ cells d c 1 b =
        ap (λ k. cells d k 0 (shift_down d c 1 b)) all_but_one ∙ cells-shift_down d b c in_b in
      ap (λ xs. xs ++ cells d (c - 1 + 1) 0 (shift_down d c 1 b))
        (cells-set_last d a (m + 1) (get_or b 0 d) lt)
      ∙ ap (λ xs. cells d (m + 1) 0 a ++ (get_or b 0 d ∷ []) ++ xs) rest
      ∙ append_assoc (cells d (m + 1) 0 a) (get_or b 0 d ∷ []) (cells d c 1 b)
      ∙ ap (λ xs. cells d (m + 1) 0 a ++ xs) (sym (cells-first d b c))

module _ (order : ℕ) where
  -- The key comes at the place of the left node, the new child behind it.
  pub insert_into_node-Holds :
      (b : Branch) (left key : ℕ) (right : Child)
      → IsBranch order b
      → b.count + 1 < order
      → left ≤ b.count
      → Holds
          (insert_into_node b left key right)
          (insert_at left key (keys_of b))
          (insert_at (left + 1) right.self (pointers_of b))
          (insert_at (left + 1) right.cached (children_of b))
  unfolding keys_of pointers_of children_of insert_into_node IsBranch
  insert_into_node-Holds b left key right branch room le = record {
    keys = cells-insert 0 b.keys b.count left key le (omega (arith, branch));
    pointers = link-insert 0 b.pointers b.count left right.self le (omega (arith, branch));
    children = link-insert none b.children b.count left right.cached le (omega (arith, branch));
  }
