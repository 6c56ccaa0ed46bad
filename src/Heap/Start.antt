-- ===== src/Heap/Start.antt =====
-- `kspace_initialize` of kernel/kernel/memory/kmemory.c.
use missy_micro.Common.{ℕ, ◌≤◌, ◌<◌, ◌≡◌, ◌≢◌, refl, arith, none}
use missy_micro.Common.{==_ne}
use missy_micro.Balloc.{balloc_get}
use missy_micro.Balloc.Bitmap.{used}
use missy_micro.Balloc.Alloc.{granted-ne_zero, balloc_get_lem}
use missy_micro.Paging.{Memory, vmmngr_map_page}
use missy_micro.Paging.Kept.{IsPaged-granted}
use missy_micro.Paging.Walk.{translate, IsPaged, Spares}
use missy_micro.Paging.Map.{vmmngr_map_page_lem}
use missy_micro.Heap.{Kspace, Initialized, kspace_initialize}
use missy_micro.Heap.Grow.{IsHeap}

-- With the page tables in order, two blocks of memory free and nothing mapped in the region of
-- the heap, `kspace_initialize` does not panic and leaves a heap in order of one page, with the
-- break at its start.
pub kspace_initialize_lem :
    (k : Kspace)
    → IsPaged k.memory
    → 2 ≤ k.memory.alloc.free_blocks
    → ((a : ℕ) → 0xd0000000 ≤ a → a < 0xf0000000 → translate k.memory.paging a ≡ none)
    → (l : Kspace) × (kspace_initialize k ≡ Initialized.done l)
      × IsHeap l
      × (l.kernel_break ≡ 0xd0000000)
      × (l.kheap_last_page ≡ 0xd0000000)
      × Spares k.memory l.memory
unfolding kspace_initialize
kspace_initialize_lem k paged free unmapped =
    let (b, g) = balloc_get_lem k.memory.alloc paged.accounted paged.zero_used (omega arith) in
    let block = (balloc_get k.memory.alloc).0 in
    let m : Memory = record { alloc = (balloc_get k.memory.alloc).1; paging = k.memory.paging } in
    let b≢0 : block ≢ 0 = (granted-ne_zero k.memory.alloc m.alloc b block paged.zero_used g).1 in
    let (status, n) =
      vmmngr_map_page_lem m block 0xd0000000 (IsPaged-granted k.memory b block m.alloc paged g)
        (omega (arith, g.count)) (omega (arith, g.address)) (omega arith)
        (unmapped 0xd0000000 (omega arith) (omega arith)) in
    rw (==_ne block 0 b≢0) (
      record k {
        memory = (vmmngr_map_page m block 0xd0000000).1;
        kheap_base = block;
        kernel_break = 0xd0000000;
        kheap_last_page = 0xd0000000;
      },
      refl,
      record {
        paged = n.paged;
        aligned = refl;
        low = omega arith;
        mapped = λ a lo hi. ground (arith, n.walks a);
        ahead = λ a lo hi. ground (arith, n.walks a, unmapped a);
      },
      refl,
      refl,
      λ f held off.
          let given : used m.alloc.m_bmp f ≡ 1 = ground (arith, g.digits f, held) in
          (n.given f given, n.tables f given off),
    )
