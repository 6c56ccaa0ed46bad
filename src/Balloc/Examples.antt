-- ===== src/Balloc/Examples.antt =====
-- The block allocator of balloc.c on a memory of 64 blocks, and each result at an input.
use missy_micro.Common.{ℕ, ◌*◌, ◌<◌, ◌≡◌, refl, arith, [], ◌∷◌, ◌==◌, if◌then◌else◌}
use missy_micro.Balloc.{Balloc, balloc_get, balloc_free, block_alloc_first_free}
use missy_micro.Balloc.{scan_units, scan_unit}
use missy_micro.Balloc.Bitmap.{used}
use missy_micro.Balloc.Count.{IsAccounted, count_free}
use missy_micro.Bits.{bit}
use missy_micro.Common.{◌/◌, ◌-◌, ◌^◌, sub32}
use missy_micro.Balloc.Alloc.{IsGranted, balloc_get_lem, balloc_get_past_memory}
use missy_micro.Balloc.Alloc.{free-get}
use missy_micro.Balloc.Multi.{block_alloc_first_free_n, scan_units_n, scan_unit_n, count_run}
use missy_micro.Balloc.Multi.{memory_bitmap_test_sum, balloc_get_n}
use missy_micro.Balloc.Multi.Laws.{balloc_get_n_unmarked}
use missy_micro.Balloc.Boot.{balloc_initialize}
use missy_micro.Balloc.Boot.Laws.{bitmap_unreserved}
use missy_micro.Balloc.Client.{Client, take, give, Reach, here, next, remove, IsSafe}
use missy_micro.Balloc.Client.{Reach-IsSafe}

-- Blocks 0 and 1 of 64 are given out.
abbrev small : Balloc
small = record {
  m_bmp_addr = 0xc0010000;
  m_bmp = λ i. if i == 0 then 3 else 0;
  mem_sz = 262144;
  bmp_sz = 3;
  total_blocks = 64;
  free_blocks = 62;
}

-- All 64 blocks are given out.
abbrev exhausted : Balloc
exhausted = record small { m_bmp = λ i. if i == 2 then 0 else 0xffffffff; free_blocks = 0 }

small-IsAccounted : IsAccounted small
unfolding count_free used bit
small-IsAccounted = record { units = refl; memory = omega arith; counted = refl }

exhausted-IsAccounted : IsAccounted exhausted
unfolding count_free used bit
exhausted-IsAccounted = record { units = refl; memory = omega arith; counted = refl }

small_zero : used small.m_bmp 0 ≡ 1
unfolding used bit
small_zero = refl

-- The first free block is block 2, and its address is returned.
get_small : (balloc_get small).0 ≡ 8192
unfolding balloc_get block_alloc_first_free scan_units scan_unit
get_small = refl

get_exhausted : (balloc_get exhausted).0 ≡ 262144
unfolding balloc_get block_alloc_first_free scan_units scan_unit
get_exhausted = refl

balloc_get_example : (b : ℕ) × IsGranted small b (balloc_get small).0 (balloc_get small).1
balloc_get_example = balloc_get_lem small small-IsAccounted small_zero (omega arith)

exhausted_padding : used exhausted.m_bmp 64 ≡ 0
unfolding used bit
exhausted_padding = refl

past_memory_example :
    ((balloc_get exhausted).0 ≡ 64 * 4096) × ((balloc_get exhausted).1.free_blocks ≡ 2 ^ 32 - 1)
past_memory_example =
    balloc_get_past_memory exhausted exhausted-IsAccounted (omega arith) refl exhausted_padding

small_one : used small.m_bmp 1 ≡ 1
unfolding used bit
small_one = refl

free-get_example :
    let (p, t) = balloc_get small in
    ((c : ℕ) → used (balloc_free t p).m_bmp c ≡ used small.m_bmp c)
    × ((balloc_free t p).free_blocks ≡ 62)
free-get_example = free-get small small-IsAccounted small_zero (omega arith)

small_two : used small.m_bmp 2 ≡ 0
unfolding used bit
small_two = refl

-- The search for two blocks at `small` finds block 2.
small_n : block_alloc_first_free_n small 2 ≡ 2
unfolding block_alloc_first_free_n scan_units_n scan_unit_n count_run memory_bitmap_test_sum
small_n = refl

get_n_example :
    let b = block_alloc_first_free_n small 2 in
    let (p, t) = balloc_get_n small 2 in
    (p ≡ b * 4096)
    × (t.free_blocks ≡ sub32 62 2)
    × ((c : ℕ) → c < 32 * b → used t.m_bmp c ≡ used small.m_bmp c)
    × (used t.m_bmp b ≡ 0)
get_n_example = balloc_get_n_unmarked small 2 (omega arith) (omega arith) (rw small_n (omega arith))

unreserved_example :
    let s = (balloc_initialize 0xc0000000 0xc0010000 (λ i. 7) 0x1000000).1 in
    used s.m_bmp (sub32 s.m_bmp_addr 0xbff00000 / 4096) ≡ 0
unreserved_example =
    bitmap_unreserved 0x10000 (λ i. 7) 0x1000000 (omega arith) (omega arith) (omega arith)
      (omega arith)

-- A client takes a block and gives it back.
abbrev idle : Client
idle = record { alloc = small; held = [] }

abbrev holding : Client
holding = record { alloc = (balloc_get small).1; held = (balloc_get small).0 ∷ [] }

abbrev returned : Client
returned = record {
  alloc = balloc_free holding.alloc (balloc_get small).0;
  held = remove 0 holding.held;
}

idle-IsSafe : IsSafe idle
idle-IsSafe = record {
  accounted = small-IsAccounted;
  zero_used = small_zero;
  owned = tt;
  distinct = tt;
}

run : Reach idle returned
run = next (next here (take (omega arith))) (give 0 (balloc_get small).0 refl)

reach_example : IsSafe returned
reach_example = Reach-IsSafe idle-IsSafe run
