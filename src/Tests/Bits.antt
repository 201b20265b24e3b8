-- ===== src/Tests/Bits.antt =====
-- Bit lists and addresses at concrete inputs.
use paffs.Prelude.{ℕ, ◌/◌, ◌<◌, ◌≤◌, ◌≡◌, refl, true, false, List, [], ◌∷◌, arith}
use paffs.BitList.{test_in_byte, set_bit, get_bit, find_first_free, count_set_bits}
use paffs.BitList.Laws.{IsBitList, get_bit-set_bit}
use paffs.BitList.Search.{FullTo, find_first_free_lem}
use paffs.BitList.Count.{find_first_free-lt_iff}
use paffs.BitList.TwoBit.{get_value, set_value, get_value-set_value}
use paffs.Addr.{
  FitsDevice, combine_address, extract_logical_area, extract_page_offs, extract-combine_address,
  get_page_number, get_block_number, get_page_number-injective, get_block_number-eq-page-div,
}
use paffs.Superblock
use paffs.Superblock.{Superblock}
use paffs.Tests.Sample.{config, areas}

abbrev ten : List ℕ
ten = 255 ∷ 1 ∷ []

ten-IsBitList : IsBitList 10 ten
ten-IsBitList = omega arith

runs : find_first_free 10 0 ten ≡ 9
unfolding find_first_free get_bit test_in_byte
runs = refl

get_bit-set_bit_test : get_bit 10 9 (set_bit 10 9 ten) ≡ true
get_bit-set_bit_test = get_bit-set_bit 10 9 ten ten-IsBitList 9 (omega arith)

find_first_free_lem_example :
    let x = find_first_free 10 77 ten in
    (x ≤ 10) × FullTo 10 ten 0 x × (x < 10 → get_bit 10 x ten ≡ false)
find_first_free_lem_example = find_first_free_lem 10 ten ten-IsBitList 77

find_first_free-lt_iff_test :
    (find_first_free 10 0 ten < 10 → count_set_bits 10 ten < 10)
    × (count_set_bits 10 ten < 10 → find_first_free 10 0 ten < 10)
find_first_free-lt_iff_test = find_first_free-lt_iff 10 ten ten-IsBitList 0

get_value-set_value_test : get_value 5 (set_value 5 2 ten) ≡ 2
get_value-set_value_test = get_value-set_value 8 5 2 ten (omega arith) 5 (omega arith) (omega arith)

fits : FitsDevice config
fits = omega arith

extract-combine_address_test :
    (extract_logical_area (combine_address 2 5) ≡ 2) × (extract_page_offs (combine_address 2 5) ≡ 5)
extract-combine_address_test = extract-combine_address 2 5 (omega arith) (omega arith)

get_page_number-injective_example :
    (Superblock.get_pos config (extract_logical_area 131077) areas
      ≡ Superblock.get_pos config (extract_logical_area 131077) areas)
    × (extract_page_offs 131077 ≡ extract_page_offs 131077)
unfolding extract_logical_area extract_page_offs Superblock.get_pos
get_page_number-injective_example =
    get_page_number-injective config fits areas 131077 131077 (omega arith) (omega arith)
      (omega arith) (omega arith) (omega arith) (omega arith) refl

get_block_number-eq-page-div_test :
    get_block_number config 131077 areas ≡ get_page_number config 131077 areas / 4
unfolding extract_logical_area extract_page_offs Superblock.get_pos
get_block_number-eq-page-div_test =
    get_block_number-eq-page-div config fits areas 131077 (omega arith) (omega arith) (omega arith)
