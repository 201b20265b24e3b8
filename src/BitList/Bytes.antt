-- ===== src/BitList/Bytes.antt =====
-- One byte of a `BitList`: what the mask operations do to each of its eight bits.
use paffs.Prelude.{
  ℕ, ◌<◌, ◌≡◌, refl, Bool, true, false, not, ◌==◌, if◌then◌else◌, same, same→eq, every, every_below,
  arith,
}
use paffs.BitList.{set_in_byte, reset_in_byte, test_in_byte}

-- Checks of every byte b and bits k, j.
set_check : ℕ → ℕ → ℕ → Bool
set_check b k j =
    same (test_in_byte (set_in_byte b k) j) (if k == j then true else test_in_byte b j)

reset_check : ℕ → ℕ → ℕ → Bool
reset_check b k j =
    same (test_in_byte (reset_in_byte b k) j) (if k == j then false else test_in_byte b j)

set_table : every 256 (λ b. every 8 (λ k. every 8 (set_check b k))) ≡ true
unfolding every set_check set_in_byte test_in_byte
set_table = refl

reset_table : every 256 (λ b. every 8 (λ k. every 8 (reset_check b k))) ≡ true
unfolding every reset_check reset_in_byte test_in_byte
reset_table = refl

test_full_table : every 8 (test_in_byte 255) ≡ true
unfolding every test_in_byte
test_full_table = refl

test_zero_table : every 8 (λ k. not (test_in_byte 0 k)) ≡ true
unfolding every test_in_byte
test_zero_table = refl

module _ (b k j : ℕ) (hb : b < 256) (hk : k < 8) (hj : j < 8) where
  -- Setting bit k of a byte sets that bit and leaves the seven others.
  pub set_in_byte_bits :
      test_in_byte (set_in_byte b k) j ≡ (if k == j then true else test_in_byte b j)
  unfolding set_check
  set_in_byte_bits = same→eq _ _ (
      every_below 8 (set_check b k) j
        (every_below 8 (λ k. every 8 (set_check b k)) k (every_below 256 _ b set_table hb) hk) hj)

  pub reset_in_byte_bits :
      test_in_byte (reset_in_byte b k) j ≡ (if k == j then false else test_in_byte b j)
  unfolding reset_check
  reset_in_byte_bits = same→eq _ _ (
      every_below 8 (reset_check b k) j
        (every_below 8 (λ k. every 8 (reset_check b k)) k (every_below 256 _ b reset_table hb) hk)
        hj)

pub set_in_byte-lt : (b k : ℕ) → set_in_byte b k < 256
unfolding set_in_byte
set_in_byte-lt b k = omega arith

pub reset_in_byte-lt : (b k : ℕ) → reset_in_byte b k < 256
unfolding reset_in_byte
reset_in_byte-lt b k = omega arith

pub test_in_byte_full : (k : ℕ) → k < 8 → test_in_byte 255 k ≡ true
test_in_byte_full k h = every_below 8 _ k test_full_table h

pub test_in_byte-zero : (k : ℕ) → k < 8 → test_in_byte 0 k ≡ false
test_in_byte-zero k h = ground (arith, every_below 8 _ k test_zero_table h)

full_table : every 256 (λ b. if every 8 (test_in_byte b) then b == 255 else true) ≡ true
unfolding every test_in_byte
full_table = refl

-- Only 0xFF has all its bits set.
pub eq_full_of_bits : (b : ℕ) → b < 256 → every 8 (test_in_byte b) ≡ true → b ≡ 255
eq_full_of_bits b h e =
    let row : (if every 8 (test_in_byte b) then b == 255 else true) ≡ true =
      every_below 256 (λ b. if every 8 (test_in_byte b) then b == 255 else true) b full_table h in
    ground arith
