-- ===== src/Superblock/Laws.antt =====
-- Reads of the area map after each write to it.
use paffs.Prelude.{ℕ, zero, suc, ◌≡◌, refl, List, [], ◌∷◌, get_or, set, arith}
use paffs.Types.{AreaStatus, Area, Config}
use paffs.Superblock.{Superblock, zero_area, get_type, store_status}

module _ (c : Config) where
  pub get_type-store_status :
      (a b : ℕ) (st : AreaStatus) (s : Superblock)
      → get_type c b (store_status c a st s) ≡ get_type c b s
  unfolding get_type store_status
  get_type-store_status a b st s = ground (arith, status_kept s.map a b)
    where
      status_kept :
          (m : List Area) (i j : ℕ)
          → (get_or (set m i (record (get_or m i zero_area) { status = st })) j zero_area).type
            ≡ (get_or m j zero_area).type
      status_kept [] i j = refl
      status_kept (x ∷ m) zero zero = refl
      status_kept (x ∷ m) zero (suc j) = refl
      status_kept (x ∷ m) (suc i) zero = refl
      status_kept (x ∷ m) (suc i) (suc j) = status_kept m i j
