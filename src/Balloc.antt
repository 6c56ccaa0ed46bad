-- ===== src/Balloc.antt =====
-- kernel/kernel/memory/balloc.c, the allocator of physical 4 KiB blocks over a bitmap.
-- A pointer is its address, and NULL is 0. A function that changes the static variables takes
-- and returns them as a `Balloc`, its own result first.
-- `balloc_initialize` is in `Boot`, and `balloc_get_n` in `Multi`.
pub mod Bitmap
pub mod Scan
pub mod Region
pub mod Count
pub mod Alloc
pub mod Multi
pub mod Client
pub mod Boot
mod Examples
use missy_micro.Common.{ℕ, zero, suc, ◌+◌, ◌-◌, ◌*◌, ◌/◌, ◌%◌, ◌^◌, bit_and, bit_or}
use missy_micro.Common.{Bool, Option, none, some}
use missy_micro.Common.{ltb, ◌==◌, if◌then◌else◌, update, u32, sub32}

abbrev pub memory_block_size : ℕ
memory_block_size = 4096

abbrev pub blocks_per_unit : ℕ
blocks_per_unit = 32

abbrev pub block_unit_full : ℕ
block_unit_full = 0xffffffff

abbrev pub logical_address_adjust : ℕ
logical_address_adjust = 0xbff00000

-- The static variables. `m_bmp i` is the word of memory at index `i` from the bitmap's address
-- `m_bmp_addr` on: the first `bmp_sz` words are the bitmap, and a write past them lands in the
-- memory that follows.
pub record Balloc : Type 0 where
  pub m_bmp_addr : ℕ
  pub m_bmp : ℕ → ℕ
  pub mem_sz : ℕ
  pub bmp_sz : ℕ
  pub total_blocks : ℕ
  pub free_blocks : ℕ

-- The three macros, at an argument that is a single name.
unfoldable pub memory_bitmap_clear : (ℕ → ℕ) → ℕ → ℕ → ℕ
memory_bitmap_clear m b = update m (b / 32) (bit_and (m (b / 32)) (2 ^ 32 - 1 - 2 ^ (b % 32)))

unfoldable pub memory_bitmap_set : (ℕ → ℕ) → ℕ → ℕ → ℕ
memory_bitmap_set m b = update m (b / 32) (bit_or (m (b / 32)) (2 ^ (b % 32)))

unfoldable pub memory_bitmap_test : (ℕ → ℕ) → ℕ → ℕ
memory_bitmap_test m b = bit_and (m (b / 32)) (2 ^ (b % 32))

-- The body of the `while` of `balloc_init_region`, without the increment.
unfoldable pub reserve_block : Balloc → ℕ → Balloc
reserve_block s b =
    if memory_bitmap_test s.m_bmp b == 0
    then record s { m_bmp = memory_bitmap_set s.m_bmp b; free_blocks = sub32 s.free_blocks 1 }
    else s

-- `left` rounds are left, `current_block` is `b`. Block numbers are below `2 ^ 20` and so are
-- the counts, hence the loop's bound does not wrap.
unfoldable pub reserve_blocks : Balloc → ℕ → ℕ → Balloc
reserve_blocks s b zero = s
reserve_blocks s b (suc left) = reserve_blocks (reserve_block s b) (b + 1) left

unfoldable pub balloc_init_region : Balloc → ℕ → ℕ → Balloc
balloc_init_region s start length =
    reserve_blocks s (start / memory_block_size) (length / memory_block_size + 1)

unfoldable pub release_block : Balloc → ℕ → Balloc
release_block s b =
    if memory_bitmap_test s.m_bmp b == 0
    then s
    else record s { m_bmp = memory_bitmap_clear s.m_bmp b; free_blocks = u32 (s.free_blocks + 1) }

unfoldable pub release_blocks : Balloc → ℕ → ℕ → Balloc
release_blocks s b zero = s
release_blocks s b (suc left) = release_blocks (release_block s b) (b + 1) left

unfoldable pub balloc_deinit_region : Balloc → ℕ → ℕ → Balloc
balloc_deinit_region s start length =
    release_blocks s (start / memory_block_size) (length / memory_block_size + 1)

-- The inner loop of `block_alloc_first_free` over word `i`, with `left` of its digits to go from
-- `j` on; `none` means that the loop ends without returning.
unfoldable pub scan_unit : (ℕ → ℕ) → ℕ → ℕ → ℕ → Option ℕ
scan_unit m i j zero = none
scan_unit m i j (suc left) =
    let rest = scan_unit m i (j + 1) left in
    if bit_and (m i) (2 ^ j) == 0 then some (u32 (i * blocks_per_unit + j)) else rest

-- The outer loop, with `left` words to go from `i` on.
unfoldable pub scan_units : (ℕ → ℕ) → ℕ → ℕ → Option ℕ
scan_units m i zero = none
scan_units m i (suc left) =
    let rest = scan_units m (i + 1) left in
    if m i == block_unit_full
    then rest
    else elim (scan_unit m i 0 blocks_per_unit) [ none ↦ rest | some b ↦ some b ]

-- A loop that ends without returning is followed by `return 0`.
abbrev pub or_zero : Option ℕ → ℕ
or_zero none = 0
or_zero (some b) = b

unfoldable pub block_alloc_first_free : Balloc → ℕ
block_alloc_first_free s = or_zero (scan_units s.m_bmp 0 s.bmp_sz)

unfoldable pub balloc_get : Balloc → ℕ × Balloc
balloc_get s =
    let blk = block_alloc_first_free s in
    if blk == 0 then (0, s) else (
      u32 (blk * memory_block_size),
      record s { m_bmp = memory_bitmap_set s.m_bmp blk; free_blocks = sub32 s.free_blocks 1 },
    )

unfoldable pub balloc_free : Balloc → ℕ → Balloc
balloc_free s blk = if blk == 0 then s else record s {
  m_bmp = memory_bitmap_clear s.m_bmp (blk / memory_block_size);
  free_blocks = u32 (s.free_blocks + 1);
}

unfoldable pub balloc_free_n : Balloc → ℕ → ℕ → Balloc
balloc_free_n s blk zero = s
balloc_free_n s blk (suc n) = balloc_free_n (balloc_free s blk) (u32 (blk + memory_block_size)) n

unfoldable pub balloc_used_block_count : Balloc → ℕ
balloc_used_block_count s = sub32 s.total_blocks s.free_blocks

unfoldable pub balloc_total_memory : Balloc → ℕ
balloc_total_memory s = u32 (s.total_blocks * memory_block_size)

unfoldable pub balloc_free_memory : Balloc → ℕ
balloc_free_memory s = u32 (s.free_blocks * memory_block_size)
