-- ===== src/Addr.antt =====
-- src/area.cpp: logical addresses, and the page and block numbers that they stand for.
-- An `Addr` has 32 bits, with the page in its low half (a little-endian machine).
use paffs.Prelude.{
  ℕ, ◌+◌, ◌*◌, ◌/◌, ◌≤◌, ◌<◌, ◌≡◌, sym, ap, subst, ◌∙◌, ltb, leb, if◌then◌else◌, u16, u32, arith,
}
use native.Mathlib.Nat.{mul_assoc, mul-add-div_right, div-lt_iff_lt-mul}
use native.Mathlib.Decide.{dec_lt}
use paffs.Types.{Config}
use paffs.Superblock
use paffs.Superblock.{Superblock}

unfoldable pub combine_address : ℕ → ℕ → ℕ
combine_address area page = u16 area * 65536 + u16 page

unfoldable pub extract_logical_area : ℕ → ℕ
extract_logical_area addr = u16 (addr / 65536)

unfoldable pub extract_page_offs : ℕ → ℕ
extract_page_offs addr = u16 addr

module _ (c : Config) where
  -- The page at `offs` of the physical area `pos`, or 0 if it lies past the device.
  abbrev page_in : ℕ → ℕ → ℕ
  page_in pos offs =
      let page : ℕ = u32 (pos * c.total_pages_per_area + offs) in
      if ltb (c.areas_no * c.total_pages_per_area) page then 0 else page

  unfoldable pub get_page_number : ℕ → Superblock → ℕ
  get_page_number addr s =
      if leb c.areas_no (extract_logical_area addr)
      then 0
      else page_in (Superblock.get_pos c (extract_logical_area addr) s) (extract_page_offs addr)

  unfoldable pub get_page_number_from_direct : ℕ → ℕ
  get_page_number_from_direct addr = page_in (extract_logical_area addr) (extract_page_offs addr)

  unfoldable pub get_block_number : ℕ → Superblock → ℕ
  get_block_number addr s = u16 (
      Superblock.get_pos c (extract_logical_area addr) s * c.blocks_per_area
      + extract_page_offs addr / c.pages_per_block)

  unfoldable pub get_block_number_from_direct : ℕ → ℕ
  get_block_number_from_direct addr =
      u16
        (extract_logical_area addr * c.blocks_per_area + extract_page_offs addr / c.pages_per_block)

page_lt :
    (pos offs areas total : ℕ) → pos < areas → offs < total → pos * total + offs < areas * total
page_lt pos offs areas total hp ho = grind arith

-- A place and an offset are recovered from their page.
place_le : (p q x y total : ℕ) → x < total → y < total → p * total + x ≡ q * total + y → p ≤ q
place_le p q x y total hx hy e = elim (dec_lt q p) [
  | yes h ↦ absurd (omega (arith, page_lt q y p total h hy))
  | no h ↦ omega arith
]

block_of : (p x b n : ℕ) → 0 < n → (p * (b * n) + x) / n ≡ p * b + x / n
block_of p x b n h = rw (← mul_assoc p b n) (mul-add-div_right h (p * b) x)

-- An address gives back the area and the page that it was made of.
pub extract-combine_address :
    (area page : ℕ)
    → area < 65536
    → page < 65536
    → (extract_logical_area (combine_address area page) ≡ area)
      × (extract_page_offs (combine_address area page) ≡ page)
unfolding combine_address extract_logical_area extract_page_offs
extract-combine_address area page ha hp = omega arith

-- And every address is made of its area and its page.
pub combine-extract :
    (addr : ℕ)
    → addr < 4294967296
    → combine_address (extract_logical_area addr) (extract_page_offs addr) ≡ addr
unfolding combine_address extract_logical_area extract_page_offs
combine-extract addr h = omega arith

module _ (c : Config) where
  -- The device's sizes fit their types, and an area is made of whole blocks.
  pub record FitsDevice : Type 0 where
    pub areas : c.areas_no < 65536
    pub pages : c.areas_no * c.total_pages_per_area < 4294967296
    pub blocks : c.areas_no * c.blocks_per_area < 65536
    pub whole : c.total_pages_per_area ≡ c.blocks_per_area * c.pages_per_block
    pub some_pages : 0 < c.pages_per_block

  module _ (addr : ℕ) (s : Superblock) (f : FitsDevice) where
    -- On a valid map the page of an address is in its area's place, and inside the device.
    pub get_page_number_lem :
        extract_logical_area addr < c.areas_no
        → extract_page_offs addr < c.total_pages_per_area
        → Superblock.get_pos c (extract_logical_area addr) s < c.areas_no
        → (get_page_number c addr s
            ≡ Superblock.get_pos c (extract_logical_area addr) s * c.total_pages_per_area
              + extract_page_offs addr)
          × (get_page_number c addr s < c.areas_no * c.total_pages_per_area)
    unfolding get_page_number
    get_page_number_lem ha ho hp = ground (
      arith,
      page_lt (Superblock.get_pos c (extract_logical_area addr) s) (extract_page_offs addr)
          c.areas_no c.total_pages_per_area,
    )

  -- Two valid addresses that lead to the same page of the flash lie in the same place of it and
  -- at the same offset.
  pub get_page_number-injective :
      (f : FitsDevice) (s : Superblock) (a b : ℕ)
      → extract_logical_area a < c.areas_no
      → extract_logical_area b < c.areas_no
      → extract_page_offs a < c.total_pages_per_area
      → extract_page_offs b < c.total_pages_per_area
      → Superblock.get_pos c (extract_logical_area a) s < c.areas_no
      → Superblock.get_pos c (extract_logical_area b) s < c.areas_no
      → get_page_number c a s ≡ get_page_number c b s
      → (Superblock.get_pos c (extract_logical_area a) s
          ≡ Superblock.get_pos c (extract_logical_area b) s)
        × (extract_page_offs a ≡ extract_page_offs b)
  get_page_number-injective f s a b ha hb oa ob pa pb e =
      let p : ℕ = Superblock.get_pos c (extract_logical_area a) s in
      let q : ℕ = Superblock.get_pos c (extract_logical_area b) s in
      let x : ℕ = extract_page_offs a in
      let y : ℕ = extract_page_offs b in
      let t : ℕ = c.total_pages_per_area in
      let eq : p * t + x ≡ q * t + y =
        sym (get_page_number_lem a s f ha oa pa).0 ∙ e ∙ (get_page_number_lem b s f hb ob pb).0 in
      let pq : p ≡ q =
        omega (arith, place_le p q x y t oa ob eq, place_le q p y x t ob oa (sym eq)) in
      (pq, omega (arith, eq, ap (λ (n : ℕ). n * t) pq))

  -- The block of an address is the block that holds its page.
  pub get_block_number-eq-page-div :
      (f : FitsDevice) (s : Superblock) (a : ℕ)
      → extract_logical_area a < c.areas_no
      → extract_page_offs a < c.total_pages_per_area
      → Superblock.get_pos c (extract_logical_area a) s < c.areas_no
      → get_block_number c a s ≡ get_page_number c a s / c.pages_per_block
  unfolding get_block_number
  get_block_number-eq-page-div f s a ha oa pa =
      let p : ℕ = Superblock.get_pos c (extract_logical_area a) s in
      let x : ℕ = extract_page_offs a in
      let page : get_page_number c a s ≡ p * c.total_pages_per_area + x =
        (get_page_number_lem a s f ha oa pa).0 in
      let cut : get_page_number c a s / c.pages_per_block
          ≡ p * c.blocks_per_area + x / c.pages_per_block =
        ap (λ n. n / c.pages_per_block) (page ∙ ap (λ n. p * n + x) f.whole)
        ∙ block_of p x c.blocks_per_area c.pages_per_block f.some_pages in
      let inside : x / c.pages_per_block < c.blocks_per_area =
        (div-lt_iff_lt-mul f.some_pages).1 (subst (λ n. x < n) f.whole oa) in
      let small = page_lt p (x / c.pages_per_block) c.areas_no c.blocks_per_area pa inside in
      omega (arith, f.blocks, small, cut)
