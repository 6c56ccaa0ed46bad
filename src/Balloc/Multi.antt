-- ===== src/Balloc/Multi.antt =====
-- `balloc_get_n` and its search, of kernel/kernel/memory/balloc.c.
pub mod Laws
use missy_micro.Common.{ℕ, zero, suc, ◌+◌, ◌*◌, ◌/◌, ◌%◌, ◌^◌, bit_and, bit_or, Bool, Option}
use missy_micro.Common.{none, some, ◌==◌, if◌then◌else◌, update, u32, sub32}
use missy_micro.Balloc.{Balloc, memory_block_size, blocks_per_unit, block_unit_full, or_zero}
use missy_micro.Balloc.{block_alloc_first_free}

-- The macros `memory_bitmap_set` and `memory_bitmap_test` at an argument `blk+i`. Their bodies
-- write `bit/32` and `bit%32` with no parentheses round `bit`, so the text expands to `blk+i/32`
-- and `blk+i%32`. A shift count of 32 or more counts modulo 32, as the shift instruction of the
-- i386 does, and the address of a word, four times its index, modulo 2 ^ 32.
unfoldable pub memory_bitmap_set_sum : (ℕ → ℕ) → ℕ → ℕ → ℕ → ℕ
memory_bitmap_set_sum m blk i =
    let word = (blk + i / 32) % 2 ^ 30 in
    update m word (bit_or (m word) (2 ^ (u32 (blk + i % 32) % 32)))

unfoldable pub memory_bitmap_test_sum : (ℕ → ℕ) → ℕ → ℕ → ℕ
memory_bitmap_test_sum m start i =
    bit_and (m ((start + i / 32) % 2 ^ 30)) (2 ^ (u32 (start + i % 32) % 32))

-- The innermost loop of `block_alloc_first_free_n`: does some round of `count`, `left` of them
-- to go, bring the free blocks seen to `nunits`?
unfoldable pub count_run : (ℕ → ℕ) → ℕ → ℕ → ℕ → ℕ → ℕ → Bool
count_run m start nunits count free zero = Bool.false
count_run m start nunits count free (suc left) =
    let free' = if memory_bitmap_test_sum m start count == 0 then free + 1 else free in
    let rest = count_run m start nunits (count + 1) free' left in
    if free' == nunits then Bool.true else rest

-- `startBit` adds `bit`, the mask `1 << j`, to the first block of word `i`.
unfoldable pub scan_unit_n : (ℕ → ℕ) → ℕ → ℕ → ℕ → ℕ → Option ℕ
scan_unit_n m nunits i j zero = none
scan_unit_n m nunits i j (suc left) =
    let rest = scan_unit_n m nunits i (j + 1) left in
    let start = u32 (i * blocks_per_unit + 2 ^ j) in
    if bit_and (m i) (2 ^ j) == 0
    then (if count_run m start nunits 0 0 (nunits + 1)
        then some (u32 (i * blocks_per_unit + j))
        else rest)
    else rest

unfoldable pub scan_units_n : (ℕ → ℕ) → ℕ → ℕ → ℕ → Option ℕ
scan_units_n m nunits i zero = none
scan_units_n m nunits i (suc left) =
    let rest = scan_units_n m nunits (i + 1) left in
    if m i == block_unit_full
    then rest
    else elim (scan_unit_n m nunits i 0 blocks_per_unit) [ none ↦ rest | some b ↦ some b ]

unfoldable pub block_alloc_first_free_n : Balloc → ℕ → ℕ
block_alloc_first_free_n s nunits =
    if nunits == 0
    then 0
    else if nunits == 1
    then block_alloc_first_free s
    else or_zero (scan_units_n s.m_bmp nunits 0 s.bmp_sz)

-- The `for` loop of `balloc_get_n`, with `left` rounds to go from `i` on.
unfoldable pub mark_run : (ℕ → ℕ) → ℕ → ℕ → ℕ → ℕ → ℕ
mark_run m blk i zero = m
mark_run m blk i (suc left) = mark_run (memory_bitmap_set_sum m blk i) blk (i + 1) left

unfoldable pub balloc_get_n : Balloc → ℕ → ℕ × Balloc
balloc_get_n s n =
    let blk = block_alloc_first_free_n s n in
    if blk == 0 then (0, s) else (
      u32 (blk * memory_block_size),
      record s { m_bmp = mark_run s.m_bmp blk 0 n; free_blocks = sub32 s.free_blocks n },
    )
