-- ===== src/Pool/Laws.antt =====
-- The object pool as a set of indices in use.
use paffs.Prelude.{
  ℕ, zero, suc, ◌+◌, ◌≤◌, ◌<◌, ◌≡◌, refl, sym, subst, ◌∙◌, Bool, true, false, List, leb, ◌==◌,
  if◌then◌else◌, set, get_or, length, length-set, get_or-set_self, get_or-set_ne, ltb, ◌&&◌, le→ltb,
  lt→ltb, arith, inl, inr, Bool-cases,
}
use native.Mathlib.Decide.{dec_lt, ℕ_discrete}
use paffs.Types.{Result, ok, no_space, invalid_input, bug}
use paffs.BitList.{find_first_free, set_bit, reset_bit, get_bit, count_set_bits, count_from}
use paffs.BitList.Laws.{
  IsBitList, set_bit-IsBitList, reset_bit-IsBitList, get_bit-set_bit, get_bit-reset_bit,
}
use paffs.BitList.Search.{find_first_free_lem}
use paffs.BitList.Count.{count_set_bits-set_bit, count_set_bits-reset_bit, find_first_free-lt_iff}
use paffs.Pool.{ObjectPool, get_new_object, free_object, usage_from, get_usage}

-- The arrays have their sizes.
pub record IsPool {T : Type 0} (size : ℕ) (p : ObjectPool T) : Type 0 where
  pub bits : IsBitList size p.active_objects
  pub sized : length p.objects ≡ size

leb-false : (a b : ℕ) → b < a → leb a b ≡ false
leb-false a b h = ground arith

leb-true : (a b : ℕ) → a ≤ b → leb a b ≡ true
leb-true a b h = ground arith

module _ {T : Type 0} (size beyond : ℕ) (fresh zeroed : T) where
  abbrev pub is_used : ℕ → ObjectPool T → Bool
  is_used i p = get_bit size i p.active_objects

  abbrev pub used_count : ObjectPool T → ℕ
  used_count p = count_set_bits size p.active_objects

  abbrev pub has_room : ObjectPool T → Bool
  has_room p = ltb (used_count p) size

  pub object-set :
      (v : T) (xs : List T) (i j : ℕ)
      → i < length xs
      → get_or (set xs i v) j zeroed ≡ (if i == j then v else get_or xs j zeroed)
  object-set v xs i j h = elim (ℕ_discrete i j) [
    | yes e ↦ ground (arith, get_or-set_self xs i v zeroed h, e)
    | no ne ↦ ground (arith, get_or-set_ne xs i j v zeroed ne)
  ]

  -- What `getNewObject` answers, with the index and the pool that it leaves.
  pub record IsTaken (p : ObjectPool T) (answer : Result × (ℕ × ObjectPool T)) : Type 0 where
    pub result : answer.0 ≡ (if has_room p then ok else no_space)
    pub was_unused : is_used answer.1.0 p ≡ false
    pub counted : used_count answer.1.1 ≡ (if has_room p then used_count p + 1 else used_count p)
    pub marked :
        (j : ℕ)
        → is_used j answer.1.1 ≡ (if has_room p && (answer.1.0 == j) then true else is_used j p)
    pub built :
        (j : ℕ)
        → get_or answer.1.1.objects j zeroed
          ≡ (if has_room p && (answer.1.0 == j) then fresh else get_or p.objects j zeroed)
    pub shape : IsPool size answer.1.1

  module _ (p : ObjectPool T) (w : IsPool size p) where
    abbrev x : ℕ
    x = find_first_free size beyond p.active_objects

    abbrev taken : ObjectPool T
    taken = record {
      active_objects = set_bit size x p.active_objects;
      objects = set p.objects x fresh;
    }

    free_here : x < size → get_bit size x p.active_objects ≡ false
    free_here h = (find_first_free_lem size p.active_objects w.bits beyond).2 h

    out_of_range : size ≤ x → get_bit size x p.active_objects ≡ false
    unfolding get_bit
    out_of_range h = rw (le→ltb x size h) refl

    some_room : x < size → used_count p < size
    some_room h = (find_first_free-lt_iff size p.active_objects w.bits beyond).0 h

    not_full : used_count p < size → x < size
    not_full h = (find_first_free-lt_iff size p.active_objects w.bits beyond).1 h

    taken-IsPool : x < size → IsPool size taken
    taken-IsPool h = record {
      bits = set_bit-IsBitList size x p.active_objects w.bits;
      sized = length-set p.objects x fresh ∙ w.sized;
    }

    taken-IsTaken : x < size → IsTaken p (ok, (x, taken))
    taken-IsTaken h =
        let room : has_room p ≡ true = lt→ltb (used_count p) size (some_room h) in
        record {
          result = rw room refl;
          was_unused = free_here h;
          counted = rw room (count_set_bits-set_bit size x p.active_objects w.bits h (free_here h));
          marked = λ j. rw room (get_bit-set_bit size x p.active_objects w.bits j h);
          built = λ j. rw room (object-set fresh p.objects x j (omega (arith, w.sized)));
          shape = taken-IsPool h;
        }

    refused-IsTaken : size ≤ x → IsTaken p (no_space, (x, p))
    refused-IsTaken h =
        let full : has_room p ≡ false = elim (dec_lt (used_count p) size) [
          | yes lt ↦ absurd (omega (arith, not_full lt))
          | no ge ↦ le→ltb (used_count p) size (omega arith)
        ] in
        record {
          result = rw full refl;
          was_unused = out_of_range h;
          counted = rw full refl;
          marked = λ j. rw full refl;
          built = λ j. rw full refl;
          shape = w;
        }

    -- `getNewObject` succeeds exactly when not every object is in use. Then it answers the index of
    -- an object that was not in use, constructs it, puts exactly that one into use, and the usage
    -- grows by one; else it answers noSpace and changes nothing. The pool keeps its shape.
    pub get_new_object_lem : IsTaken p (get_new_object size beyond fresh zeroed p)
    unfolding get_new_object
    get_new_object_lem = elim (dec_lt x size) [
      | yes h ↦ rw (leb-false size x h) (taken-IsTaken h)
      | no h ↦ rw (leb-true size x (omega arith)) (refused-IsTaken (omega arith))
    ]

  -- What `freeObject` answers, with the pool that it leaves.
  pub record IsFreed (i : ℕ) (p : ObjectPool T) (answer : Result × ObjectPool T) : Type 0 where
    pub result :
        answer.0 ≡ (if ltb i size then (if is_used i p then ok else bug) else invalid_input)
    pub counted : used_count answer.1 + (if is_used i p then 1 else 0) ≡ used_count p
    pub marked : (j : ℕ) → is_used j answer.1 ≡ (if i == j then false else is_used j p)
    pub zeroed_one :
        (j : ℕ)
        → get_or answer.1.objects j zeroed
          ≡ (if is_used i p && (i == j) then zeroed else get_or p.objects j zeroed)
    pub shape : IsPool size answer.1

  module _ (i : ℕ) (p : ObjectPool T) (w : IsPool size p) where
    abbrev pub freed : ObjectPool T
    freed = record {
      active_objects = reset_bit size i p.active_objects;
      objects = set p.objects i zeroed;
    }

    pub freed-IsPool : IsPool size freed
    freed-IsPool = record {
      bits = reset_bit-IsBitList size i p.active_objects w.bits;
      sized = length-set p.objects i zeroed ∙ w.sized;
    }

    freed-IsFreed : i < size → is_used i p ≡ true → IsFreed i p (ok, freed)
    freed-IsFreed h u = record {
      result = rw (lt→ltb i size h, u) refl;
      counted = rw u (count_set_bits-reset_bit size i p.active_objects w.bits h u);
      marked = λ j. get_bit-reset_bit size i p.active_objects w.bits j h;
      zeroed_one = λ j. rw u (object-set zeroed p.objects i j (omega (arith, w.sized)));
      shape = freed-IsPool;
    }

    same-IsFreed :
        (r : Result)
        → is_used i p ≡ false
        → r ≡ (if ltb i size then (if is_used i p then ok else bug) else invalid_input)
        → IsFreed i p (r, p)
    same-IsFreed r n eq = record {
      result = eq;
      counted = ground arith;
      marked = λ j. ground arith;
      zeroed_one = λ j. ground arith;
      shape = w;
    }

    pub foreign_unused : size ≤ i → is_used i p ≡ false
    unfolding get_bit
    foreign_unused h = rw (le→ltb i size h) refl

    pub free-used :
        i < size → is_used i p ≡ true → free_object size beyond fresh zeroed i p ≡ (ok, freed)
    unfolding free_object
    free-used h u = ground arith

    free-unused :
        i < size → is_used i p ≡ false → free_object size beyond fresh zeroed i p ≡ (bug, p)
    unfolding free_object
    free-unused h u = ground arith

    free-foreign : size ≤ i → free_object size beyond fresh zeroed i p ≡ (invalid_input, p)
    unfolding free_object
    free-foreign h = ground arith

    -- `freeObject` refuses a pointer that is not from the pool with invalidInput and an object that
    -- is not in use with bug, and changes nothing then; else exactly that object is no longer in
    -- use, its memory is zeroed, and the usage falls by one. The pool keeps its shape.
    pub free_object_lem : IsFreed i p (free_object size beyond fresh zeroed i p)
    free_object_lem = elim (dec_lt i size) [
      | no h ↦
          subst (IsFreed i p) (sym (free-foreign (omega arith)))
            (same-IsFreed invalid_input (foreign_unused (omega arith)) (ground arith))
      | yes h ↦ elim (Bool-cases (is_used i p)) [
        | inl u ↦ subst (IsFreed i p) (sym (free-used h u)) (freed-IsFreed h u)
        | inr n ↦ subst (IsFreed i p) (sym (free-unused h n)) (same-IsFreed bug n (ground arith))
      ]
    ]

  -- The loop of `getUsage` counts, as long as its 8 bits are enough.
  usage_from-count :
      (rounds i used : ℕ) (list : List ℕ)
      → used + rounds < 256
      → usage_from size beyond fresh zeroed rounds i list used
        ≡ used + count_from size rounds i list
  unfolding usage_from count_from
  usage_from-count zero i used list h = omega arith
  usage_from-count (suc rounds) i used list h = elim (Bool-cases (get_bit size i list)) [
    | inl u ↦ ground (arith, usage_from-count rounds (i + 1) (used + 1) list (omega arith))
    | inr n ↦ ground (arith, usage_from-count rounds (i + 1) used list (omega arith))
  ]

  -- For a pool of fewer than 256 objects, `getUsage` is the number of objects in use.
  pub get_usage-used_count :
      (p : ObjectPool T) → size < 256 → get_usage size beyond fresh zeroed p ≡ used_count p
  unfolding get_usage count_set_bits
  get_usage-used_count p h = omega (arith, usage_from-count size 0 0 p.active_objects (omega arith))
