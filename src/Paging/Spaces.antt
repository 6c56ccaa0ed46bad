-- ===== src/Paging/Spaces.antt =====
-- kernel/arch/i386/memory/memory_virt.c: the first page directory of the kernel and those of other
-- address spaces. They are written through virtual addresses, which the processor translates:
-- `none` is a page fault, which stops the kernel.
pub mod Copy
pub mod Initialize
pub mod Create
pub mod Examples
use missy_micro.Common.{ℕ, zero, suc, ◌+◌, ◌*◌, ◌/◌, ◌%◌, ◌==◌, if◌then◌else◌, Option, none, some}
use missy_micro.Common.{◌>>=◌, bit_and, bit_or, u32}
use missy_micro.Balloc.{balloc_get}
use missy_micro.Paging.{Paging, Memory, Status, write_frame, dir_entry, vmmngr_map_page}
use missy_micro.Paging.{vmmngr_unmap_page}
use missy_micro.Paging.Walk.{translate}

-- `I386_TEMP_PDIR_VIRTUAL`
abbrev pub temp_pdir_virtual : ℕ
temp_pdir_virtual = 0xcffff000

-- The address of `pdir_virtual`.
abbrev pub pdir_window : ℕ
pdir_window = 0xfffff000

-- A word at a virtual address.
unfoldable pub load_word : Paging → ℕ → Option ℕ
load_word v a = elim (translate v a) [
  | none ↦ none
  | some p ↦ some (v.frames (p / 4096) (p % 4096 / 4))
]

unfoldable pub store_word : Paging → ℕ → ℕ → Option Paging
store_word v a x = elim (translate v a) [
  | none ↦ none
  | some p ↦ some (write_frame v (p / 4096) (p % 4096 / 4) x)
]

-- `left` words from word `i` on, one after the other, from the directory to the new one. The
-- `memcpy` of libc/string/memcpy.c goes byte by byte through the same addresses.
unfoldable pub copy_words : Paging → ℕ → ℕ → Option Paging
copy_words v i zero = some v
copy_words v i (suc left) = do
  x ← load_word v (pdir_window + 4 * i)
  w ← store_word v (temp_pdir_virtual + 4 * i) x
  copy_words w (i + 1) left

-- `if (vmmngr_map_page (...) == -1) return -1;`, with what follows it.
unfoldable pub unless_failed :
    Status × Memory → (Memory → Option (Status × Memory)) → Option (Status × Memory)
unless_failed (Status.failed, m) next = some (Status.failed, m)
unless_failed (Status.ok, m) next = next m

-- `vmmngr_initialize` after the new directory is mapped: `new_pdir_phys[1023]` is written at the
-- physical address, taken as a virtual one.
unfoldable pub enter_new_pdir : ℕ → Memory → Option (Status × Memory)
enter_new_pdir new_pdir_phys m = do
  copied ← copy_words m.paging 0 1024
  looped ← store_word copied (u32 (new_pdir_phys + 4 * 1023)) (bit_or new_pdir_phys 3)
  let loaded = record looped { pdbr = new_pdir_phys; pdir_physical = new_pdir_phys }
  some (Status.ok, (vmmngr_unmap_page (record m { paging = loaded }) temp_pdir_virtual).1)

-- The address that `balloc_get` returns is used without a test for NULL.
unfoldable pub vmmngr_initialize : Memory → Option (Status × Memory)
vmmngr_initialize m =
    let (new_pdir_phys, alloc) = balloc_get m.alloc in
    let pdir_physical = bit_and (dir_entry m.paging 1023) 0xfffff000 in
    let started : Memory = record {
      alloc = alloc;
      paging = record m.paging { pdir_physical = pdir_physical };
    } in
    unless_failed (vmmngr_map_page started new_pdir_phys temp_pdir_virtual)
      (enter_new_pdir new_pdir_phys)

-- The two loops of `vmmngr_create_address_space`.
unfoldable pub copy_kernel : Memory → Option (Status × Memory)
copy_kernel m = do
  low ← copy_words m.paging 0 256
  high ← copy_words low 768 256
  some (Status.ok, record m { paging = high })

unfoldable pub vmmngr_create_address_space : Memory → ℕ → Option (Status × Memory)
vmmngr_create_address_space m p =
    if p == 0
    then some (Status.failed, m)
    else unless_failed (vmmngr_map_page m p temp_pdir_virtual) copy_kernel
