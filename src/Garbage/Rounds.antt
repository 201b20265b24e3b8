-- ===== src/Garbage/Rounds.antt =====
-- `collectGarbage` comes to an end: every round that cannot delete its area retires it.
use paffs.Prelude.{
  ℕ, zero, suc, ◌+◌, ◌*◌, ◌<◌, ◌≡◌, ◌≢◌, refl, sym, ap, ◌∙◌, inl, inr, Bool, true, false, List, [],
  ◌∷◌, leb, if◌then◌else◌, if-elim, Bool-cases, get_or, set, get_or-set_ne, arith,
}
use paffs.Types.{
  ok, is_ok, bad_flash, Area, AreaType, AreaStatus, retired, is_retired, closed, is_unset, Config,
}
use paffs.Journal.{area_mgmt, delete_area, retire_area}
use paffs.Superblock
use paffs.Superblock.{Superblock, zero_area, area_at, store_type, store_status, store_erasecount}
use paffs.Device.{
  Env, Device, log, set_status, set_used_areas, increase_erasecount, reset_as_written,
  delete_summary,
}
use paffs.Device.Effects.{
  sb-log, sb-set_type, sb-set_status, sb-increase_erasecount, sb-reset_as_written,
  sb-delete_summary,
}
use paffs.AreaMgmt.{
  type_of, pos_of, increase_if, retire, erase_area, erase_blocks, delete_contents, delete,
}
use paffs.Garbage.{GarbageOps, holds_files, is_candidate}

-- Every entry of the area map but one is as before.
abbrev pub Others : ℕ → Superblock → Superblock → Type 0
Others a s s' = (j : ℕ) → j ≢ a → get_or s'.map j zero_area ≡ get_or s.map j zero_area

abbrev type_at : ℕ → Superblock → AreaType
type_at a s = (get_or s.map a zero_area).type

module _ (c : Config) (a : ℕ) (s : Superblock) where
  Others-status : (st : AreaStatus) → Others a s (store_status c a st s)
  unfolding store_status
  Others-status st j ne =
      if-elim (λ (x : Superblock). get_or x.map j zero_area ≡ get_or s.map j zero_area)
        (leb c.areas_no a) _ _ (λ _. refl)
        (λ _. get_or-set_ne s.map a j _ zero_area (λ e. ne (sym e)))

  Others-type : (t : AreaType) → Others a s (store_type c a t s)
  unfolding store_type
  Others-type t j ne =
      if-elim (λ (x : Superblock). get_or x.map j zero_area ≡ get_or s.map j zero_area)
        (leb c.areas_no a) _ _ (λ _. refl)
        (λ _. get_or-set_ne s.map a j _ zero_area (λ e. ne (sym e)))

  Others-erasecount : Others a s (store_erasecount c a s)
  unfolding store_erasecount
  Others-erasecount j ne =
      if-elim (λ (x : Superblock). get_or x.map j zero_area ≡ get_or s.map j zero_area)
        (leb c.areas_no a) _ _ (λ _. refl)
        (λ _. get_or-set_ne s.map a j _ zero_area (λ e. ne (sym e)))

  -- A retired area holds no files, nor does one past the end of the map.
  retired_at :
      (m : List Area) (i : ℕ)
      → holds_files
          (get_or (set m i (record (get_or m i zero_area) { type = retired })) i zero_area).type
        ≡ false
  retired_at [] i = refl
  retired_at (x ∷ m) zero = refl
  retired_at (x ∷ m) (suc i) = retired_at m i

  store_retired : a < c.areas_no → holds_files (type_at a (store_type c a retired s)) ≡ false
  unfolding store_type
  store_retired low = ground (arith, retired_at s.map a)

  erasecount_at :
      (m : List Area) (i n : ℕ)
      → (get_or (set m i (record (get_or m i zero_area) { erasecount = n })) i zero_area).type
        ≡ (get_or m i zero_area).type
  erasecount_at [] i n = refl
  erasecount_at (x ∷ m) zero n = refl
  erasecount_at (x ∷ m) (suc i) n = erasecount_at m i n

  type-store_erasecount : type_at a (store_erasecount c a s) ≡ type_at a s
  unfolding store_erasecount
  type-store_erasecount =
      if-elim (λ (x : Superblock). type_at a x ≡ type_at a s) (leb c.areas_no a) _ _ (λ _. refl)
        (λ _. erasecount_at s.map a _)

module _ {F C P : Type 0} (e : Env F C P) (a : ℕ) (low : a < e.config.areas_no) where
  abbrev D : Type 0
  D = Device F C P

  abbrev c : Config
  c = e.config

  map-increase_if : (b : Bool) (d : D) → (increase_if e b d).sb.map ≡ d.sb.map
  unfolding set_used_areas log Superblock.store_used_areas
  map-increase_if true d = refl
  map-increase_if false d = refl

  -- `retireArea` up to its last change of the map.
  abbrev closed_first : D → D
  closed_first d = set_status e a closed (log e (area_mgmt (retire_area a)) d)

  abbrev counted : D → D
  counted d = increase_if e (is_unset (type_of e a (closed_first d))) (closed_first d)

  sb-retire : (d : D) → (retire e a d).sb ≡ store_type c a retired (counted d).sb
  unfolding retire
  sb-retire d = sb-log e _ _ ∙ sb-set_type e a retired (counted d) low

  retire-Others : (d : D) → Others a d.sb (retire e a d).sb
  retire-Others d j ne =
      ap (λ (s : Superblock). get_or s.map j zero_area) (sb-retire d)
      ∙ Others-type c a (counted d).sb retired j ne
      ∙ ap (λ m. get_or m j zero_area)
          (map-increase_if (is_unset (type_of e a (closed_first d))) (closed_first d))
      ∙ ap (λ (s : Superblock). get_or s.map j zero_area)
          (sb-set_status e a closed (log e (area_mgmt (retire_area a)) d) low)
      ∙ Others-status c a (log e (area_mgmt (retire_area a)) d).sb closed j ne
      ∙ ap (λ (s : Superblock). get_or s.map j zero_area) (sb-log e (area_mgmt (retire_area a)) d)

  retire_type : (d : D) → holds_files (type_at a (retire e a d).sb) ≡ false
  retire_type d =
      ap (λ s. holds_files (type_at a s)) (sb-retire d) ∙ store_retired c a (counted d).sb low

  -- What `deleteAreaContents` does to the map behind the erasure.
  abbrev behind : D → D
  behind d = delete_summary e a (reset_as_written e a (increase_erasecount e a d))

  sb-behind : (d : D) → (behind d).sb ≡ store_erasecount c a d.sb
  sb-behind d =
      sb-delete_summary e a _ ∙ sb-reset_as_written e a _ ∙ sb-increase_erasecount e a d low

  -- A deletion that does not succeed has retired the area, and no other has changed.
  pub record IsGivenUp (d d' : D) : Type 0 where
    pub others : Others a d.sb d'.sb
    pub no_files : holds_files (type_at a d'.sb) ≡ false

  given_up : (d f : D) → f.sb ≡ d.sb → IsGivenUp d (behind (retire e a f))
  given_up d f same = record {
    others = λ j ne.
        ap (λ (s : Superblock). get_or s.map j zero_area) (sb-behind (retire e a f))
        ∙ Others-erasecount c a (retire e a f).sb j ne
        ∙ retire-Others f j ne
        ∙ ap (λ (s : Superblock). get_or s.map j zero_area) same;
    no_files =
        ap (λ s. holds_files (type_at a s)) (sb-behind (retire e a f))
        ∙ ap holds_files (type-store_erasecount c a (retire e a f).sb)
        ∙ retire_type f;
  }

  erased : D → Bool × F
  erased d =
      erase_blocks e e.config.blocks_per_area (pos_of e a d * e.config.blocks_per_area) d.flash

  abbrev announced : D → D
  announced d = log e (area_mgmt (delete_area a)) d

  in_range : leb e.config.areas_no a ≡ false
  in_range = ground arith

  abbrev after_erasure : D → D
  after_erasure d = record d { flash = (erased d).1 }

  contents_eq :
      (d : D)
      → is_retired (type_of e a d) ≡ false
      → delete_contents e a 0 true d ≡ (
        (if (erased d).0 then ok else bad_flash),
        behind (if (erased d).0 then after_erasure d else retire e a (after_erasure d)),
      )
  unfolding delete_contents erase_area erased
  contents_eq d live = elim (Bool-cases (erased d).0) [
    | inl fine ↦ rw (in_range, live, fine) refl
    | inr broken ↦ rw (in_range, live, broken) refl
  ]

  still_live :
      (d : D) → is_retired (type_of e a d) ≡ false → is_retired (type_of e a (announced d)) ≡ false
  unfolding log
  still_live d live = live

  pub delete-fails :
      (d : D)
      → is_retired (type_of e a d) ≡ false
      → is_ok (delete e a d).0 ≡ false
      → IsGivenUp d (delete e a d).1
  unfolding delete
  delete-fails d live =
      rw (in_range, live, contents_eq (announced d) (still_live d live))
        (elim (Bool-cases (erased (announced d)).0) [
          | inl fine ↦ rw fine (λ fails. absurd (cc fails))
          | inr broken ↦ rw broken (λ _.
              given_up d (after_erasure (announced d)) (sb-log e (area_mgmt (delete_area a)) d))
        ])

module _ {F C P : Type 0} (e : Env F C P) (ops : GarbageOps F (Device F C P)) where
  -- How many areas garbage collection could take.
  unfoldable pub candidates : ℕ → Device F C P → ℕ
  candidates zero d = 0
  candidates (suc n) d =
      let rest : ℕ = candidates n d in if is_candidate e ops n d then rest + 1 else rest
