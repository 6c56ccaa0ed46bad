-- ===== src/Heap/Examples.antt =====
-- The results about kmemory.c on a heap of one page.
use missy_micro.Common.{ℕ, ◌+◌, ◌/◌, ◌%◌, ◌≤◌, ◌<◌, ◌≡◌, ◌≢◌, refl, arith, none}
use missy_micro.Paging.{ok}
use missy_micro.Paging.Walk.{IsPaged, translate}
use missy_micro.Paging.Examples.{one_page, one_page-IsPaged}
use missy_micro.Heap.{Kspace, kspace_brk, kspace_sbrk}
use missy_micro.Heap.Grow.{IsHeap}
use missy_micro.Paging.Examples.{four_used}
use missy_micro.Common.{◌==◌, ◌&&◌, if◌then◌else◌, none}
use missy_micro.Heap.Break.{IsBroken, kspace_brk_lem}
use missy_micro.Heap.Break.{sbrk-sbrk}

abbrev pub one_page_heap : Kspace
one_page_heap = record {
  memory = one_page;
  kheap_base = 0x7000;
  kernel_break = 0xd0000000;
  kheap_last_page = 0xd0000000;
  errno = 0;
}

heap_page : (a : ℕ) → 0xd0000000 ≤ a → a < 0xd0001000 → translate one_page.paging a ≢ none
unfolding translate
heap_page a lo hi e =
    let i : a / 0x400000 ≡ 832 = omega arith in
    let j : a / 0x1000 % 1024 ≡ 0 = omega arith in let walked = rw (i, j) at e in cc

after_heap : (a : ℕ) → 0xd0001000 ≤ a → a < 0xf0000000 → translate one_page.paging a ≡ none
unfolding translate
after_heap a lo hi = ground arith

pub one_page_heap-IsHeap : IsHeap one_page_heap
one_page_heap-IsHeap = record {
  paged = one_page-IsPaged;
  aligned = refl;
  low = omega arith;
  mapped = heap_page;
  ahead = after_heap;
}

brk_example :
    ((kspace_brk one_page_heap 0xd0002010).0 ≡ ok)
    × IsBroken one_page_heap (kspace_brk one_page_heap 0xd0002010).1 0xd0002010
brk_example =
    kspace_brk_lem one_page_heap 0xd0002010 one_page_heap-IsHeap (omega arith) (omega arith)
      (omega arith)

sbrk-sbrk_example :
    let (p, l) = kspace_sbrk one_page_heap 0x1800 in
    let (q, n) = kspace_sbrk l 0x100 in
    (p ≡ 0xd0000000)
    × (q ≡ p + 0x1800)
    × ((x : ℕ) → p ≤ x → x < q + 0x100 → translate n.memory.paging x ≢ none)
sbrk-sbrk_example =
    sbrk-sbrk one_page_heap 0x1800 0x100 one_page_heap-IsHeap (omega arith) refl (omega arith)

-- A directory that maps nothing but itself.
abbrev bare : Kspace
bare = record {
  memory = record {
    alloc = four_used;
    paging = record {
      frames = λ f i. if f == 1 && i == 1023 then 0x1003 else 0;
      pdbr = 0x1000;
      pdir_physical = 0x1000;
    };
  };
  kheap_base = 0;
  kernel_break = 0xc0100000;
  kheap_last_page = 0xcffff000;
  errno = 0;
}

bare-IsPaged : IsPaged bare.memory
bare-IsPaged = record {
  accounted = one_page-IsPaged.accounted;
  zero_used = one_page-IsPaged.zero_used;
  root = refl;
  self_present = refl;
  self_frame = refl;
  owned = λ i h e. ground (arith, one_page-IsPaged.owned 1023 (omega arith) refl);
  distinct = λ i j hi hj ei ej e. ground arith;
}

nothing_mapped : (a : ℕ) → 0xd0000000 ≤ a → a < 0xf0000000 → translate bare.memory.paging a ≡ none
unfolding translate
nothing_mapped a lo hi = ground arith
