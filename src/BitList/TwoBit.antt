-- ===== src/BitList/TwoBit.antt =====
-- src/bitlist.hpp, `TwoBitList<numberOfElements>`: four two-bit values to a byte.
use paffs.Prelude.{
  ℕ, ◌+◌, ◌*◌, ◌/◌, ◌%◌, ◌^◌, ◌<◌, ◌≡◌, refl, bit_and, bit_or, bit_xor, Bool, true, List, ◌==◌,
  if◌then◌else◌, length, get_or, set, replicate, All, u8, every, every_below, ==_iff, All-set,
  All-get_or, All-replicate, length-set, length-replicate, get_or-set_self, get_or-set_ne, arith,
}
use paffs.BitList.Laws.{IsByte}

-- `(byte & ~(0b11 << k * 2)) | value << k * 2` and `(byte & 0b11 << k * 2) >> k * 2`, for k < 4.
unfoldable pub set_in_byte : ℕ → ℕ → ℕ → ℕ
set_in_byte b k value =
    u8 (bit_or (bit_and b (bit_xor 255 (3 * 2 ^ (k * 2)))) (value * 2 ^ (k * 2)))

unfoldable pub get_in_byte : ℕ → ℕ → ℕ
get_in_byte b k = bit_and b (3 * 2 ^ (k * 2)) / 2 ^ (k * 2)

unfoldable pub set_value : ℕ → ℕ → List ℕ → List ℕ
set_value pos value list =
    set list (pos / 4) (set_in_byte (get_or list (pos / 4) 0) (pos % 4) value)

unfoldable pub get_value : ℕ → List ℕ → ℕ
get_value pos list = get_in_byte (get_or list (pos / 4) 0) (pos % 4)

unfoldable pub clear : ℕ → List ℕ
clear n = replicate ((n + 3) / 4) 0

check : ℕ → ℕ → ℕ → ℕ → Bool
check b k v j = get_in_byte (set_in_byte b k v) j == (if k == j then v else get_in_byte b j)

table : every 256 (λ b. every 4 (λ k. every 4 (λ v. every 4 (check b k v)))) ≡ true
unfolding every check set_in_byte get_in_byte
table = refl

in_byte :
    (b k v j : ℕ)
    → b < 256
    → k < 4
    → v < 4
    → j < 4
    → get_in_byte (set_in_byte b k v) j ≡ (if k == j then v else get_in_byte b j)
unfolding check
in_byte b k v j hb hk hv hj = (==_iff _ _).0 (
    every_below 4 (check b k v) j
      (every_below 4 (λ v. every 4 (check b k v)) v
        (every_below 4 (λ k. every 4 (λ v. every 4 (check b k v))) k (every_below 256 _ b table hb)
          hk)
        hv)
      hj)

set_in_byte-lt : (b k v : ℕ) → set_in_byte b k v < 256
unfolding set_in_byte
set_in_byte-lt b k v = omega arith

pub record IsTwoBitList (n : ℕ) (list : List ℕ) : Type 0 where
  pub sized : length list ≡ (n + 3) / 4
  pub bytes : All IsByte list

pub clear-IsTwoBitList : (n : ℕ) → IsTwoBitList n (clear n)
unfolding clear
clear-IsTwoBitList n = record {
  sized = length-replicate ((n + 3) / 4) 0;
  bytes = All-replicate IsByte ((n + 3) / 4) 0 (omega arith);
}

module _ (n pos value : ℕ) (list : List ℕ) (w : IsTwoBitList n list) where
  pub set_value-IsTwoBitList : IsTwoBitList n (set_value pos value list)
  unfolding set_value
  set_value-IsTwoBitList =
      let v : ℕ = set_in_byte (get_or list (pos / 4) 0) (pos % 4) value in
      ground (
        arith,
        length-set list (pos / 4) v,
        All-set IsByte list (pos / 4) v (set_in_byte-lt _ _ _) w.bytes,
      )

  -- A two-bit value written in range is read back, and every other value stays as it was.
  pub get_value-set_value :
      (j : ℕ)
      → pos < n
      → value < 4
      → get_value j (set_value pos value list) ≡ (if pos == j then value else get_value j list)
  unfolding get_value set_value
  get_value-set_value j h hv =
      let b : ℕ = get_or list (pos / 4) 0 in
      let v : ℕ = set_in_byte b (pos % 4) value in
      ground (
        arith,
        All-get_or IsByte list (pos / 4) 0 (omega arith) w.bytes,
        in_byte b (pos % 4) value (j % 4),
        get_or-set_self list (pos / 4) v 0,
        get_or-set_ne list (pos / 4) (j / 4) v 0,
      )
