-- ===== src/Prelude/Lists.antt =====
-- Lists measured and indexed by native numbers, under the library's names.
use Prim.Native.Nat.{ℕ, zero, suc, ◌+◌, ◌<◌, ◌≤◌}
use mathlib.Core.Path.{◌≡◌, refl, ap}
use mathlib.Core.Logic.{◌≢◌}
use mathlib.Core.List.{List, [], ◌∷◌, ◌++◌, map}
use native.Mathlib.Omega.{arith}

module _ {ℓ} {A : Type ℓ} where
  abbrev pub length : List A → ℕ
  length [] = 0
  length (x ∷ xs) = suc (length xs)

  abbrev pub get_or : List A → ℕ → A → A
  get_or [] i d = d
  get_or (x ∷ xs) zero d = x
  get_or (x ∷ xs) (suc i) d = get_or xs i d

  -- A write out of bounds changes nothing.
  abbrev pub set : List A → ℕ → A → List A
  set [] i v = []
  set (x ∷ xs) zero v = v ∷ xs
  set (x ∷ xs) (suc i) v = x ∷ set xs i v

  abbrev pub take : ℕ → List A → List A
  take zero xs = []
  take (suc n) [] = []
  take (suc n) (x ∷ xs) = x ∷ take n xs

  abbrev pub replicate : ℕ → A → List A
  replicate zero a = []
  replicate (suc n) a = a ∷ replicate n a

  abbrev pub All {κ} : (A → Type κ) → List A → Type κ
  All P [] = Unit
  All P (x ∷ xs) = P x × All P xs

module _ {ℓ} {A : Type ℓ} where
  pub length-append : (xs ys : List A) → length (xs ++ ys) ≡ length xs + length ys
  length-append [] ys = omega arith
  length-append (x ∷ xs) ys = omega (arith, length-append xs ys)

  pub length-set : (xs : List A) (i : ℕ) (v : A) → length (set xs i v) ≡ length xs
  length-set [] i v = refl
  length-set (x ∷ xs) zero v = refl
  length-set (x ∷ xs) (suc i) v = ap suc (length-set xs i v)

  pub length-replicate : (n : ℕ) (a : A) → length (replicate n a) ≡ n
  length-replicate zero a = refl
  length-replicate (suc n) a = ap suc (length-replicate n a)

  pub get_or-set_self :
      (xs : List A) (i : ℕ) (v d : A) → i < length xs → get_or (set xs i v) i d ≡ v
  get_or-set_self [] i v d h = elim h [ ]
  get_or-set_self (x ∷ xs) zero v d h = refl
  get_or-set_self (x ∷ xs) (suc i) v d h = get_or-set_self xs i v d (omega arith)

  pub get_or-set_ne :
      (xs : List A) (i j : ℕ) (v d : A) → i ≢ j → get_or (set xs i v) j d ≡ get_or xs j d
  get_or-set_ne [] i j v d h = refl
  get_or-set_ne (x ∷ xs) zero zero v d h = absurd (h refl)
  get_or-set_ne (x ∷ xs) zero (suc j) v d h = refl
  get_or-set_ne (x ∷ xs) (suc i) zero v d h = refl
  get_or-set_ne (x ∷ xs) (suc i) (suc j) v d h = get_or-set_ne xs i j v d (λ e. h (ap suc e))

  pub get_or-replicate : (n i : ℕ) (a : A) → get_or (replicate n a) i a ≡ a
  get_or-replicate zero i a = refl
  get_or-replicate (suc n) zero a = refl
  get_or-replicate (suc n) (suc i) a = get_or-replicate n i a

  pub All-set {κ} :
      (P : A → Type κ) (xs : List A) (i : ℕ) (v : A) → P v → All P xs → All P (set xs i v)
  All-set P [] i v p h = tt
  All-set P (x ∷ xs) zero v p h = (p, h.1)
  All-set P (x ∷ xs) (suc i) v p h = (h.0, All-set P xs i v p h.1)

  pub All-get_or {κ} :
      (P : A → Type κ) (xs : List A) (i : ℕ) (d : A) → P d → All P xs → P (get_or xs i d)
  All-get_or P [] i d p h = p
  All-get_or P (x ∷ xs) zero d p h = h.0
  All-get_or P (x ∷ xs) (suc i) d p h = All-get_or P xs i d p h.1

  pub All-replicate {κ} : (P : A → Type κ) (n : ℕ) (a : A) → P a → All P (replicate n a)
  All-replicate P zero a p = tt
  All-replicate P (suc n) a p = (p, All-replicate P n a p)

  -- In range the default does not matter.
  pub get_or_default :
      (xs : List A) (i : ℕ) (d e : A) → i < length xs → get_or xs i d ≡ get_or xs i e
  get_or_default [] i d e h = elim h [ ]
  get_or_default (x ∷ xs) zero d e h = refl
  get_or_default (x ∷ xs) (suc i) d e h = get_or_default xs i d e (omega arith)

  pub take-nil : (n : ℕ) → take {A = A} n [] ≡ []
  take-nil zero = refl
  take-nil (suc n) = refl

  pub take-append_left : (k : ℕ) (xs ys : List A) → k ≤ length xs → take k (xs ++ ys) ≡ take k xs
  take-append_left zero xs ys h = refl
  take-append_left (suc k) [] ys h = absurd (omega arith)
  take-append_left (suc k) (x ∷ xs) ys h = ap (◌∷◌ x) (take-append_left k xs ys (omega arith))

  pub take-append_right :
      (n k : ℕ) (xs ys : List A) → n ≡ length xs + k → take n (xs ++ ys) ≡ xs ++ take k ys
  take-append_right n k [] ys h =
      let same_count : n ≡ k = omega arith in ap (λ m. take m ys) same_count
  take-append_right zero k (x ∷ xs) ys h = absurd (omega arith)
  take-append_right (suc n) k (x ∷ xs) ys h = ap (◌∷◌ x) (take-append_right n k xs ys (omega arith))

  pub length-take : (k : ℕ) (xs : List A) → length (take k xs) ≤ length xs
  length-take zero xs = omega arith
  length-take (suc k) [] = omega arith
  length-take (suc k) (x ∷ xs) = omega (arith, length-take k xs)

module _ {ℓ κ} {A : Type ℓ} {B : Type κ} (f : A → B) where
  pub take-map : (k : ℕ) (xs : List A) → take k (map f xs) ≡ map f (take k xs)
  take-map zero xs = refl
  take-map (suc k) [] = refl
  take-map (suc k) (x ∷ xs) = ap (◌∷◌ (f x)) (take-map k xs)

  pub length-map : (xs : List A) → length (map f xs) ≡ length xs
  length-map [] = refl
  length-map (x ∷ xs) = ap suc (length-map xs)
