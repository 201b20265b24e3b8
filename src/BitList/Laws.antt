-- ===== src/BitList/Laws.antt =====
-- The bits of a `BitList` after each of its writes.
use paffs.Prelude.{
  ℕ, ◌/◌, ◌%◌, ◌<◌, ◌≡◌, true, false, List, ◌==◌, if◌then◌else◌, length, get_or, All, length-set,
  length-replicate, get_or-set_self, get_or-set_ne, get_or-replicate, All-set, All-get_or,
  All-replicate, arith,
}
use paffs.BitList.{set_in_byte, reset_in_byte, byte_usage, clear, set_bit, reset_bit, get_bit}
use paffs.BitList.Bytes.{
  set_in_byte_bits, reset_in_byte_bits, set_in_byte-lt, reset_in_byte-lt, test_in_byte-zero,
}

abbrev pub IsByte : ℕ → Type 0
IsByte b = b < 256

-- An array of the right size, of bytes.
pub record IsBitList (n : ℕ) (list : List ℕ) : Type 0 where
  pub sized : length list ≡ byte_usage n
  pub bytes : All IsByte list

byte_at : (list : List ℕ) (i : ℕ) → All IsByte list → get_or list i 0 < 256
byte_at list i h = All-get_or IsByte list i 0 (omega arith) h

module _ (n : ℕ) where
  pub clear-IsBitList : IsBitList n (clear n)
  unfolding clear
  clear-IsBitList = record {
    sized = length-replicate (byte_usage n) 0;
    bytes = All-replicate IsByte (byte_usage n) 0 (omega arith);
  }

  pub get_bit-clear : (i : ℕ) → get_bit n i (clear n) ≡ false
  unfolding get_bit clear
  get_bit-clear i =
      ground (arith, get_or-replicate {A = ℕ} (byte_usage n) (i / 8) 0, test_in_byte-zero (i % 8))

  module _ (i : ℕ) (list : List ℕ) (w : IsBitList n list) where
    pub set_bit-IsBitList : IsBitList n (set_bit n i list)
    unfolding set_bit
    set_bit-IsBitList =
        let v : ℕ = set_in_byte (get_or list (i / 8) 0) (i % 8) in
        ground (
          arith,
          length-set list (i / 8) v,
          All-set IsByte list (i / 8) v (set_in_byte-lt _ _) w.bytes,
        )

    pub reset_bit-IsBitList : IsBitList n (reset_bit n i list)
    unfolding reset_bit
    reset_bit-IsBitList =
        let v : ℕ = reset_in_byte (get_or list (i / 8) 0) (i % 8) in
        ground (
          arith,
          length-set list (i / 8) v,
          All-set IsByte list (i / 8) v (reset_in_byte-lt _ _) w.bytes,
        )

    -- A read of bit j after bit i, which the list has, is set: set at i, and else what j was.
    pub get_bit-set_bit :
        (j : ℕ)
        → i < n
        → get_bit n j (set_bit n i list) ≡ (if i == j then true else get_bit n j list)
    unfolding get_bit set_bit
    get_bit-set_bit j h =
        let b : ℕ = get_or list (i / 8) 0 in
        let v : ℕ = set_in_byte b (i % 8) in
        ground (
          arith,
          byte_at list (i / 8) w.bytes,
          set_in_byte_bits b (i % 8) (j % 8),
          get_or-set_self list (i / 8) v 0,
          get_or-set_ne list (i / 8) (j / 8) v 0,
        )

    -- A read of bit j after bit i, which the list has, is cleared: clear at i, and else what j was.
    pub get_bit-reset_bit :
        (j : ℕ)
        → i < n
        → get_bit n j (reset_bit n i list) ≡ (if i == j then false else get_bit n j list)
    unfolding get_bit reset_bit
    get_bit-reset_bit j h =
        let b : ℕ = get_or list (i / 8) 0 in
        let v : ℕ = reset_in_byte b (i % 8) in
        ground (
          arith,
          byte_at list (i / 8) w.bytes,
          reset_in_byte_bits b (i % 8) (j % 8),
          get_or-set_self list (i / 8) v 0,
          get_or-set_ne list (i / 8) (j / 8) v 0,
        )
