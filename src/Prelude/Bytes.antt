-- ===== src/Prelude/Bytes.antt =====
-- Fixed widths, and facts about small ranges by evaluating every case.
use Prim.Native.Nat.{ℕ, zero, suc, ◌<◌, ◌%◌}
use mathlib.Core.Path.{◌≡◌}
use mathlib.Core.Bool.{Bool, true, ◌&&◌}
use native.Mathlib.Omega.{arith}

-- A store into a `uint16_t` keeps the low bits.
abbrev pub u16 : ℕ → ℕ
u16 word = word % 65536

-- `uint64_t`
abbrev pub u64 : ℕ → ℕ
u64 word = word % 18446744073709551616

-- `uint32_t`
abbrev pub u32 : ℕ → ℕ
u32 word = word % 4294967296

-- `uint8_t`
abbrev pub u8 : ℕ → ℕ
u8 byte = byte % 256

-- The test holds for the numbers below the bound.
unfoldable pub every : ℕ → (ℕ → Bool) → Bool
every zero test = true
every (suc top) test = every top test && test top

pub every_below :
    (bound : ℕ) (test : ℕ → Bool) (x : ℕ) → every bound test ≡ true → x < bound → test x ≡ true
unfolding every
every_below (suc top) test x whole low = ground (arith, every_below top test x)
every_below zero test x whole low = absurd (omega arith)
