-- ===== src/Balloc/Bitmap.antt =====
-- What the macros of balloc.c do to each block's digit.
use missy_micro.Common.{ℕ, ◌-◌, ◌/◌, ◌%◌, ◌^◌, ◌<◌}
use missy_micro.Common.{◌≡◌, ◌⊎◌, arith}
use missy_micro.Common.{◌==◌, if◌then◌else◌}
use missy_micro.Bits.{bit, bit-lt_two, bit-bit_and, bit-bit_or, bit-two_pow_self, bit-two_pow_ne}
use missy_micro.Bits.{bit-not_bit_self, bit-not_bit_ne, not_bit, bit_and-two_pow-eq_zero}
use missy_micro.Bits.{bit_and-two_pow-ne_zero, bit_or-lt, bit_and-lt, two_pow-lt}
use missy_micro.Balloc.{memory_bitmap_clear, memory_bitmap_set, memory_bitmap_test}

-- 1 where block `b` is given out, 0 where it is free.
unfoldable pub used : (ℕ → ℕ) → ℕ → ℕ
used m b = bit (m (b / 32)) (b % 32)

-- Every word of memory fits 32 bits.
abbrev pub IsWords : (ℕ → ℕ) → Type 0
IsWords m = (i : ℕ) → m i < 2 ^ 32

pub used-lt_two : (m : ℕ → ℕ) (b : ℕ) → used m b < 2
unfolding used
used-lt_two m b = bit-lt_two (m (b / 32)) (b % 32)

pub used_cases : (m : ℕ → ℕ) (b : ℕ) → (used m b ≡ 0) ⊎ (used m b ≡ 1)
used_cases m b = ground (arith, used-lt_two m b)

-- The test macro is zero exactly at a free block.
pub test-used : (m : ℕ → ℕ) (b : ℕ) → (memory_bitmap_test m b == 0) ≡ (used m b == 0)
unfolding memory_bitmap_test used
test-used m b = ground (
  arith,
  bit-lt_two (m (b / 32)) (b % 32),
  bit_and-two_pow-eq_zero (m (b / 32)) (b % 32),
  bit_and-two_pow-ne_zero (m (b / 32)) (b % 32),
)

pub used-set :
    (m : ℕ → ℕ) (b c : ℕ) → used (memory_bitmap_set m b) c ≡ (if c == b then 1 else used m c)
unfolding used memory_bitmap_set
used-set m b c = ground (
  arith,
  bit-bit_or (m (b / 32)) (2 ^ (b % 32)) (c % 32),
  bit-two_pow_self (b % 32),
  bit-two_pow_ne (b % 32) (c % 32),
  bit-lt_two (m (c / 32)) (c % 32),
)

pub used-clear :
    (m : ℕ → ℕ) (b c : ℕ) → used (memory_bitmap_clear m b) c ≡ (if c == b then 0 else used m c)
unfolding used memory_bitmap_clear not_bit
used-clear m b c = ground (
  arith,
  bit-bit_and (m (b / 32)) (not_bit 32 (b % 32)) (c % 32),
  bit-not_bit_self 32 (b % 32),
  bit-not_bit_ne 32 (b % 32) (c % 32),
  bit-lt_two (m (c / 32)) (c % 32),
)

pub set-IsWords : (m : ℕ → ℕ) (b : ℕ) → IsWords m → IsWords (memory_bitmap_set m b)
unfolding memory_bitmap_set
set-IsWords m b h i = ground (
  arith,
  h i,
  bit_or-lt 32 (m (b / 32)) (2 ^ (b % 32)) (h (b / 32)) (two_pow-lt (b % 32) 32 (omega arith)),
)

pub clear-IsWords : (m : ℕ → ℕ) (b : ℕ) → IsWords m → IsWords (memory_bitmap_clear m b)
unfolding memory_bitmap_clear
clear-IsWords m b h i =
    ground (arith, h i, bit_and-lt 32 (m (b / 32)) (2 ^ 32 - 1 - 2 ^ (b % 32)) (h (b / 32)))
