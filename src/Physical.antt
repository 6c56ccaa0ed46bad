-- ===== src/Physical.antt =====
-- `kmemory_initialize` of kernel/kernel/memory/kmemory.c up to its call of `vmmngr_initialize`: the
-- block allocator is started with the memory size of the boot loader, and the regions of its map that
-- are not of type 1 are reserved. The linker's addresses and the memory at the bitmap are arguments,
-- as in `Balloc.Boot`.
pub mod Laws
mod Examples
use missy_micro.Common.{
  ℕ, zero, suc, ◌*◌, ◌%◌, ◌^◌, Bool, ◌||◌, Option, none, some, ◌==◌, if◌then◌else◌, u32,
}
use missy_micro.Balloc.{Balloc, balloc_init_region}
use missy_micro.Balloc.Boot.{balloc_initialize}
use missy_micro.Multiboot.{Multiboot, multiboot_get_memsz, multiboot_get_mmap_next}
use missy_micro.Multiboot.Structs.{MmapData}

-- The body of the loop.
unfoldable pub mark_region : Balloc → MmapData → Balloc
mark_region b entry =
    if entry.kind == 1 then b else balloc_init_region b (u32 entry.base) (u32 entry.len)

-- The loop, with `entry` in the buffer. `none` is a trap of `multiboot_get_mmap_next`, or running out
-- of fuel.
unfoldable pub mark_regions :
    (ℕ → ℕ) → Multiboot → Balloc → MmapData → ℕ → Option (Multiboot × Balloc)
mark_regions m s b entry zero = none
mark_regions m s b entry (suc fuel) = elim (multiboot_get_mmap_next m s) [
  | none ↦ none
  | some next ↦ elim next.0 [
    | none ↦ some (next.1, mark_region b entry)
    | some e ↦ mark_regions m next.1 (mark_region b entry) e fuel
  ]
]

-- The first two calls of `kernel_panic`, or the state of the loader's data and of the allocator.
pub data Prepared : Type 0 where
  no_allocator : Prepared
  no_map : Prepared
  ready : Multiboot × Balloc → Prepared

-- After the block allocator is started.
unfoldable pub read_map : (ℕ → ℕ) → Multiboot → Balloc → ℕ → Option Prepared
read_map m s b fuel = elim (multiboot_get_mmap_next m s) [
  | none ↦ none
  | some next ↦ elim next.0 [
    | none ↦ some Prepared.no_map
    | some e ↦ elim (mark_regions m next.1 b e fuel) [
      | none ↦ none
      | some marked ↦ some (Prepared.ready marked)
    ]
  ]
]

unfoldable pub kmemory_prepare : (ℕ → ℕ) → Multiboot → ℕ → ℕ → (ℕ → ℕ) → ℕ → Option Prepared
kmemory_prepare m s kernel_start kernel_end ram fuel =
    let mem_sz = u32 (multiboot_get_memsz s * 1024) in
    let (blocks, b) = balloc_initialize kernel_start kernel_end ram mem_sz in
    if mem_sz == 0 || blocks == 0 then some Prepared.no_allocator else read_map m s b fuel
