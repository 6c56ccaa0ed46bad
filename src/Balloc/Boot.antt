-- ===== src/Balloc/Boot.antt =====
-- `balloc_initialize` of kernel/kernel/memory/balloc.c.
pub mod Laws
use missy_micro.Common.{ℕ, zero, suc, ◌+◌, ◌*◌, ◌/◌, update, u32, sub32}
use missy_micro.Balloc.{Balloc, balloc_init_region, memory_block_size, blocks_per_unit}
use missy_micro.Balloc.{logical_address_adjust}

-- `m_bmp[i] = 0x0` for `left` indices from `i` on.
unfoldable pub clear_words : (ℕ → ℕ) → ℕ → ℕ → ℕ → ℕ
clear_words m i zero = m
clear_words m i (suc left) = clear_words (update m i 0) (i + 1) left

-- The static variables after the bitmap is cleared. The linker's `kernel_start` and `kernel_end`
-- are arguments, and `ram` is what the memory from the bitmap's address on held before. Adding to
-- an `unsigned int *` counts words of four bytes.
unfoldable pub cleared : ℕ → ℕ → (ℕ → ℕ) → ℕ → Balloc
cleared kernel_start kernel_end ram memory_sz =
    let kernel_sz = sub32 kernel_end kernel_start in
    let total = memory_sz / memory_block_size in
    let units = total / blocks_per_unit + 1 in
    record {
      m_bmp_addr = u32 (kernel_start + 4 * kernel_sz);
      m_bmp = clear_words ram 0 units;
      mem_sz = memory_sz;
      bmp_sz = units;
      total_blocks = total;
      free_blocks = total;
    }

-- `kernel_total_sz`, the size that is reserved for the kernel and the bitmap.
abbrev pub kernel_total_sz : ℕ → ℕ → ℕ → ℕ
kernel_total_sz kernel_start kernel_end memory_sz = u32 (
    sub32 kernel_end kernel_start
    + u32 ((memory_sz / memory_block_size / blocks_per_unit + 1) * blocks_per_unit))

unfoldable pub balloc_initialize : ℕ → ℕ → (ℕ → ℕ) → ℕ → ℕ × Balloc
balloc_initialize kernel_start kernel_end ram memory_sz =
    let kstart_phys = sub32 kernel_start logical_address_adjust in
    (
      memory_sz / memory_block_size,
      balloc_init_region
          (balloc_init_region (cleared kernel_start kernel_end ram memory_sz) 0x0 0x100000)
          kstart_phys (kernel_total_sz kernel_start kernel_end memory_sz),
    )
