-- ===== src/Balloc/Boot/Laws.antt =====
-- The state in which `balloc_initialize` of balloc.c leaves the allocator.
use missy_micro.Common.{ℕ, zero, suc, ◌+◌, ◌*◌, ◌/◌, ◌%◌, ◌^◌, ◌≤◌, ◌<◌, ◌≡◌, refl}
use missy_micro.Common.{sym, arith, u32, sub32, ltb, leb, if◌then◌else◌}
use missy_micro.Common.{update, Bool, ◌&&◌, ◌||◌}
use missy_micro.Bits.{bit-zero}
use missy_micro.Balloc.{Balloc, balloc_init_region}
use missy_micro.Balloc.Bitmap.{used}
use missy_micro.Balloc.Count.{IsAccounted, count_free_all}
use missy_micro.Balloc.Region.{SameSizes, init_region-SameSizes, balloc_init_region_lem, within}
use missy_micro.Balloc.Region.{region_blocks}
use missy_micro.Balloc.Boot.{clear_words, cleared, kernel_total_sz, balloc_initialize}

clear_words_lem :
    (m : ℕ → ℕ) (i left j : ℕ)
    → clear_words m i left j ≡ (if leb i j && ltb j (i + left) then 0 else m j)
unfolding clear_words
clear_words_lem m i zero j = ground arith
clear_words_lem m i (suc left) j = ground (arith, clear_words_lem (update m i 0) (i + 1) left j)

used-clear_words : (m : ℕ → ℕ) (n c : ℕ) → c < n * 32 → used (clear_words m 0 n) c ≡ 0
unfolding used
used-clear_words m n c h = ground (arith, clear_words_lem m 0 n (c / 32), bit-zero (c % 32))

-- The blocks that `balloc_initialize` reserves: those of the first megabyte, and those from the
-- kernel's first byte on that its size and 32 bytes for each word of the bitmap take.
abbrev pub reserved : ℕ → ℕ → ℕ → ℕ → Bool
reserved kernel_start kernel_end memory_sz c =
    within 0 257 c
    || within (sub32 kernel_start 0xbff00000 / 4096)
        (region_blocks (kernel_total_sz kernel_start kernel_end memory_sz)) c

module _ (kernel_start kernel_end : ℕ) (ram : ℕ → ℕ) (memory_sz : ℕ)
    (fits : memory_sz < 2 ^ 32) where
  abbrev start_state : Balloc
  start_state = cleared kernel_start kernel_end ram memory_sz

  abbrev low_reserved : Balloc
  low_reserved = balloc_init_region start_state 0x0 0x100000

  cleared-used : (c : ℕ) → c < start_state.bmp_sz * 32 → used start_state.m_bmp c ≡ 0
  unfolding cleared
  cleared-used c h = used-clear_words ram (memory_sz / 4096 / 32 + 1) c h

  cleared-IsAccounted : IsAccounted start_state
  unfolding cleared
  cleared-IsAccounted = record {
    units = refl;
    memory = omega arith;
    counted = sym (
        count_free_all (clear_words ram 0 (memory_sz / 4096 / 32 + 1)) (memory_sz / 4096)
          (λ c h. used-clear_words ram (memory_sz / 4096 / 32 + 1) c (omega arith)));
  }

  cleared_sizes :
      (start_state.total_blocks ≡ memory_sz / 4096)
      × (start_state.bmp_sz ≡ memory_sz / 4096 / 32 + 1)
  unfolding cleared
  cleared_sizes = (refl, refl)

  -- For a memory size below 2 ^ 32 with the first megabyte and the region of the kernel
  -- inside memory, `balloc_initialize` returns the number of whole blocks of memory and
  -- leaves the count exact: of the digits of the bitmap exactly those of the reserved blocks
  -- are set, whatever the memory held before.
  pub balloc_initialize_lem :
      257 ≤ memory_sz / 4096
      → sub32 kernel_start 0xbff00000 / 4096
          + region_blocks (kernel_total_sz kernel_start kernel_end memory_sz)
        ≤ memory_sz / 4096
      → let (n, s) = balloc_initialize kernel_start kernel_end ram memory_sz in
        (n ≡ memory_sz / 4096)
        × (s.total_blocks ≡ n)
        × (s.bmp_sz ≡ n / 32 + 1)
        × IsAccounted s
        × ((c : ℕ)
            → c < s.bmp_sz * 32
            → used s.m_bmp c ≡ (if reserved kernel_start kernel_end memory_sz c then 1 else 0))
  unfolding balloc_initialize
  balloc_initialize_lem low kernel = (
    refl,
    omega (arith, sizes, sizes_low, cleared_sizes),
    omega (arith, sizes, sizes_low, cleared_sizes),
    second.1,
    λ c h. ground (arith, second.0 c, first.0 c, cleared-used c, sizes, sizes_low, cleared_sizes),
  )
    where
      sizes_low : SameSizes start_state low_reserved
      sizes_low = init_region-SameSizes start_state 0x0 0x100000

      phys : ℕ
      phys = sub32 kernel_start 0xbff00000

      size : ℕ
      size = kernel_total_sz kernel_start kernel_end memory_sz

      sizes : SameSizes low_reserved (balloc_init_region low_reserved phys size)
      sizes = init_region-SameSizes low_reserved phys size

      first :
          ((c : ℕ)
            → used low_reserved.m_bmp c ≡ (if within 0 257 c then 1 else used start_state.m_bmp c))
          × IsAccounted low_reserved
      first =
          balloc_init_region_lem start_state 0x0 0x100000 cleared-IsAccounted
            (omega (arith, cleared_sizes))

      second :
          ((c : ℕ)
            → used (balloc_init_region low_reserved phys size).m_bmp c ≡ (
                if within (phys / 4096) (region_blocks size) c
                then 1
                else used low_reserved.m_bmp c))
          × IsAccounted (balloc_init_region low_reserved phys size)
      second =
          balloc_init_region_lem low_reserved phys size first.1
            (omega (arith, sizes_low, cleared_sizes))

address_initialize :
    (kernel_start kernel_end : ℕ) (ram : ℕ → ℕ) (memory_sz : ℕ)
    → (balloc_initialize kernel_start kernel_end ram memory_sz).1.m_bmp_addr
      ≡ u32 (kernel_start + 4 * sub32 kernel_end kernel_start)
unfolding balloc_initialize cleared
address_initialize kernel_start kernel_end ram memory_sz = ground (
  arith,
  init_region-SameSizes (cleared kernel_start kernel_end ram memory_sz) 0x0 0x100000,
  init_region-SameSizes
      (balloc_init_region (cleared kernel_start kernel_end ram memory_sz) 0x0 0x100000)
      (sub32 kernel_start 0xbff00000) (kernel_total_sz kernel_start kernel_end memory_sz),
)

-- For a kernel linked at 0xc0000000 whose size, three times over, exceeds 32 bytes for each
-- word of the bitmap by two blocks, in a memory below 2 ^ 32 that holds the first megabyte and
-- the address of the bitmap, the block with the first word of the bitmap is marked free after
-- `balloc_initialize`.
pub bitmap_unreserved :
    (kernel_sz : ℕ) (ram : ℕ → ℕ) (memory_sz : ℕ)
    → memory_sz < 2 ^ 32
    → 257 ≤ memory_sz / 4096
    → 0x100000 + 4 * kernel_sz < memory_sz / 4096 * 4096
    → (memory_sz / 4096 / 32 + 1) * 32 + 8192 ≤ 3 * kernel_sz
    → let s = (balloc_initialize 0xc0000000 (0xc0000000 + kernel_sz) ram memory_sz).1 in
      used s.m_bmp (sub32 s.m_bmp_addr 0xbff00000 / 4096) ≡ 0
bitmap_unreserved kernel_sz ram memory_sz fits low inside large =
    let kernel_end = 0xc0000000 + kernel_sz in
    let (n, total, units, a, digits) =
      balloc_initialize_lem 0xc0000000 kernel_end ram memory_sz fits low (omega arith) in
    rw (address_initialize 0xc0000000 kernel_end ram memory_sz)
      (ground (arith, units, digits ((0x100000 + 4 * kernel_sz) / 4096)))
