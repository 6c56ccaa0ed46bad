-- ===== src/Heap.antt =====
-- kernel/kernel/memory/kmemory.c: the kernel's heap region and its break.
-- kernel/arch/i386/memory/i386_memory.c holds the same three functions once more.
pub mod Grow
pub mod Break
pub mod Start
pub mod Examples
use missy_micro.Common.{ℕ, zero, suc, ◌+◌, ◌*◌, ◌/◌, ◌%◌, ◌^◌, bit_and, Bool}
use missy_micro.Common.{ltb, ◌==◌, if◌then◌else◌, u32, sub32}
use missy_micro.Balloc.{Balloc, balloc_get, balloc_free}
use missy_micro.Paging.{Memory, Status, ok, failed, vmmngr_map_page}

abbrev pub kheap_page_start : ℕ
kheap_page_start = 0xd0000000

abbrev pub kheap_page_max : ℕ
kheap_page_max = 0xeffff000

abbrev pub kernel_page_size : ℕ
kernel_page_size = 4096

abbrev pub enomem : ℕ
enomem = 4

-- The static variables of the file, `errno`, and the memory that the functions work on.
pub record Kspace : Type 0 where
  pub memory : Memory
  pub kheap_base : ℕ
  pub kernel_break : ℕ
  pub kheap_last_page : ℕ
  pub errno : ℕ

-- `none` of kspace_initialize is the call of `kernel_panic`, which does not return. The status of
-- `vmmngr_map_page` is not looked at.
pub data Initialized : Type 0 where
  panic : Initialized
  done : Kspace → Initialized

unfoldable pub kspace_initialize : Kspace → Initialized
kspace_initialize k =
    let (block, alloc) = balloc_get k.memory.alloc in
    let (status, memory) =
      vmmngr_map_page (record { alloc = alloc; paging = k.memory.paging }) block kheap_page_start in
    if block == 0
    then Initialized.panic
    else Initialized.done (record k {
      memory = memory;
      kheap_base = block;
      kernel_break = kheap_page_start;
      kheap_last_page = kheap_page_start;
    })

-- What a round of the loop of `kspace_brk` does after `kheap_last_page` is raised.
unfoldable pub map_heap_page : Kspace → ℕ → Status × Kspace
map_heap_page k block =
    let (status, memory) = vmmngr_map_page k.memory block k.kheap_last_page in
    elim status [
      | ok ↦ (Status.ok, record k { memory = memory })
      | failed ↦ (
        Status.failed,
        record k {
          memory = record memory { alloc = balloc_free memory.alloc block };
          errno = enomem;
        },
      )
    ]

-- One round of the loop: `failed` where it returns -1.
unfoldable pub add_heap_page : Kspace → Status × Kspace
add_heap_page k =
    let (block, alloc) = balloc_get k.memory.alloc in
    let got = record k { memory = record { alloc = alloc; paging = k.memory.paging } } in
    let raised = record got { kheap_last_page = u32 (k.kheap_last_page + kernel_page_size) } in
    if block == 0
    then (Status.failed, record got { errno = enomem })
    else map_heap_page raised block

unfoldable pub add_heap_pages : Kspace → ℕ → Status × Kspace
add_heap_pages k zero = (Status.ok, k)
add_heap_pages k (suc left) =
    let (status, k') = add_heap_page k in
    let rest = add_heap_pages k' left in elim status [ ok ↦ rest | failed ↦ (Status.failed, k') ]

-- What follows the loop of `kspace_brk`.
unfoldable pub finish_brk : ℕ → Status × Kspace → Status × Kspace
finish_brk bp (ok, k) = (Status.ok, record k { kernel_break = bp })
finish_brk bp (failed, k) = (Status.failed, k)

unfoldable pub kspace_brk : Kspace → ℕ → Status × Kspace
unfolding finish_brk
kspace_brk k bp =
    let page = bit_and bp 0xfffff000 in
    let nblocks = sub32 page k.kheap_last_page / 2 ^ 12 in
    if ltb kheap_page_max bp
    then (Status.failed, record k { errno = enomem })
    else if page == k.kheap_last_page
    then (Status.ok, record k { kernel_break = bp })
    else if ltb k.kheap_last_page page
    then finish_brk bp (add_heap_pages k nblocks)
    else (Status.ok, k)

-- `(void *) -1`
abbrev pub no_memory : ℕ
no_memory = 0xffffffff

-- What follows the call of `kspace_brk` in `kspace_sbrk`.
unfoldable pub finish_sbrk : ℕ → Status × Kspace → ℕ × Kspace
finish_sbrk old_brk (ok, k) = (old_brk, k)
finish_sbrk old_brk (failed, k) = (no_memory, record k { errno = enomem })

unfoldable pub kspace_sbrk : Kspace → ℕ → ℕ × Kspace
unfolding finish_sbrk
kspace_sbrk k increment =
    finish_sbrk k.kernel_break (kspace_brk k (u32 (k.kernel_break + increment)))
