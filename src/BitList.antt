-- ===== src/BitList.antt =====
-- src/bitlist.hpp, `BitList<numberOfElements>`: a bitmap in an array of bytes.
-- `beyond` is what memory holds right after the array, which two of the loops read when
-- `numberOfElements` is a multiple of 8.
pub mod Bytes
pub mod Laws
pub mod Search
pub mod Count
pub mod TwoBit
use paffs.Prelude.{
  ℕ, zero, suc, ◌+◌, ◌*◌, ◌/◌, ◌%◌, ◌^◌, bit_and, bit_or, bit_xor, Bool, true, false, not, List,
  ltb, ◌==◌, if◌then◌else◌, get_or, set, replicate, u8, ◌&&◌,
}

-- `byte |= 1 << k`, `byte &= ~(1 << k)` and `byte & 1 << k`, for k < 8.
unfoldable pub set_in_byte : ℕ → ℕ → ℕ
set_in_byte b k = u8 (bit_or b (2 ^ k))

unfoldable pub reset_in_byte : ℕ → ℕ → ℕ
reset_in_byte b k = u8 (bit_and b (bit_xor 255 (2 ^ k)))

unfoldable pub test_in_byte : ℕ → ℕ → Bool
test_in_byte b k = not (bit_and b (2 ^ k) == 0)

-- The parameter is `numberOfElements`.
module _ (n : ℕ) where
  abbrev pub byte_usage : ℕ
  byte_usage = (n + 7) / 8

  unfoldable pub clear : List ℕ
  clear = replicate byte_usage 0

  unfoldable pub set_bit : ℕ → List ℕ → List ℕ
  set_bit i list =
      if ltb i n then set list (i / 8) (set_in_byte (get_or list (i / 8) 0) (i % 8)) else list

  unfoldable pub reset_bit : ℕ → List ℕ → List ℕ
  reset_bit i list =
      if ltb i n then set list (i / 8) (reset_in_byte (get_or list (i / 8) 0) (i % 8)) else list

  unfoldable pub get_bit : ℕ → List ℕ → Bool
  get_bit i list = if ltb i n then test_in_byte (get_or list (i / 8) 0) (i % 8) else false

  -- The inner loop of `findFirstFree`: bits j, j + 1, ... of one byte, `rounds` of them left.
  unfoldable pub find_in_byte : ℕ → ℕ → List ℕ → ℕ → ℕ
  find_in_byte zero j list next = next
  find_in_byte (suc rounds) j list next =
      let rest = find_in_byte rounds (j + 1) list next in
      if ltb j n && not (get_bit j list) then j else if ltb j n then rest else next

  -- The outer loop: bytes i, i + 1, ...; `next` is what a full byte goes on with.
  unfoldable pub find_from : ℕ → ℕ → ℕ → List ℕ → ℕ
  find_from beyond zero i list = n
  find_from beyond (suc rounds) i list =
      let rest = find_from beyond rounds (i + 1) list in
      if get_or list i beyond == 255 then rest else find_in_byte 8 (i * 8) list rest

  unfoldable pub find_first_free : ℕ → List ℕ → ℕ
  unfolding find_from find_in_byte
  find_first_free beyond list = find_from beyond (n / 8 + 1) 0 list

  unfoldable pub set_somewhere_from : ℕ → ℕ → ℕ → List ℕ → Bool
  set_somewhere_from beyond zero i list = false
  set_somewhere_from beyond (suc rounds) i list =
      let rest = set_somewhere_from beyond rounds (i + 1) list in
      if get_or list i beyond == 0 then rest else true

  unfoldable pub is_set_somewhere : ℕ → List ℕ → Bool
  unfolding set_somewhere_from
  is_set_somewhere beyond list = set_somewhere_from beyond (n / 8 + 1) 0 list

  -- The loop of `countSetBits` from bit i on.
  unfoldable pub count_from : ℕ → ℕ → List ℕ → ℕ
  count_from zero i list = 0
  count_from (suc rounds) i list =
      (if get_bit i list then 1 else 0) + count_from rounds (i + 1) list

  unfoldable pub count_set_bits : List ℕ → ℕ
  unfolding count_from
  count_set_bits list = count_from n 0 list

-- `operator==`, over arrays of the same number of bytes.
unfoldable pub equal_bytes : ℕ → List ℕ → List ℕ → Bool
equal_bytes zero xs ys = true
equal_bytes (suc rounds) xs ys =
    let rest = equal_bytes rounds xs ys in
    if get_or xs rounds 0 == get_or ys rounds 0 then rest else false
