-- ===== src/Kalloc/Examples.antt =====
-- The results about kalloc.c: the list begins at 16, and a block of 2048 bytes follows at 32.
use missy_micro.Common.{ℕ, ◌+◌, ◌-◌, ◌≡◌, ◌≤◌, refl, arith, some, ◌==◌, if◌then◌else◌}
use missy_micro.Heap.{Kspace}
use missy_micro.Heap.Grow.{IsHeap}
use missy_micro.Libc.Compare.{IsBytes}
use missy_micro.Heap.Examples.{one_page_heap, one_page_heap-IsHeap}
use missy_micro.Kalloc.First.{kernel_alloc_first}
use missy_micro.Common.{◌*◌}
use missy_micro.Kalloc.{Kalloc, sz_of, next_of, kernel_alloc, kernel_free}
use missy_micro.Kalloc.Split.{IsNextFree, alloc-alloc}
use missy_micro.Kalloc.Free.{IsThree, free-alloc}

abbrev heap : Kspace
heap = record {
  memory = record {
    alloc = record {
      total_blocks = 64;
      free_blocks = 0;
      bmp_sz = 3;
      mem_sz = 0;
      m_bmp_addr = 0;
      m_bmp = λ i. 0;
    };
    paging = record { frames = λ f i. 0; pdbr = 0; pdir_physical = 0 };
  };
  kheap_base = 0;
  kernel_break = 0;
  kheap_last_page = 0;
  errno = 0;
}

abbrev one_block : Kalloc
one_block = record {
  memory = λ i. if i == 16 then 32 else if i == 32 then 16 else if i == 37 then 8 else 0;
  base = 16;
  free_hdr = 16;
  kspace = heap;
}

one_block-IsNextFree : IsNextFree one_block 32 2048
unfolding next_of sz_of
one_block-IsNextFree = record {
  started = λ e. omega arith;
  below = omega arith;
  next = refl;
  size_of = refl;
  inside = omega arith;
}

circular : next_of one_block.memory 32 ≡ 16
unfolding next_of
circular = refl

two_pieces_example :
    (p q : ℕ) × (k' k'' : Kalloc) × (kernel_alloc one_block 255 1 ≡ some (p, k'))
    × (kernel_alloc k' 100 1 ≡ some (q, k''))
    × (p + 255 ≡ 32 + 2048)
    × (q + 100 + 8 ≡ p)
    × (32 + 8 ≤ q)
    × (sz_of k''.memory (p - 8) ≡ 255 + 8)
two_pieces_example =
    alloc-alloc one_block 32 2048 255 100 1 one_block-IsNextFree (omega arith) (omega arith)

unjoined_example :
    (p : ℕ) × (k' k'' : Kalloc) × (kernel_alloc one_block 255 (0 + 2) ≡ some (p, k'))
    × (kernel_free k' p (0 + 2) ≡ some k'')
    × (32 + (2048 - (255 + 8)) ≡ p - 8)
    × IsThree k' k'' 16 32 (p - 8)
    × (sz_of k''.memory 32 ≡ 2048 - (255 + 8))
    × (sz_of k''.memory (p - 8) ≡ 255 + 8)
unjoined_example =
    free-alloc one_block 32 2048 255 0 one_block-IsNextFree circular (omega arith) (omega arith)

-- Nothing is allocated yet, and the list's first header will be at 16.
abbrev fresh : Kalloc
fresh = record { memory = λ i. 0; base = 16; free_hdr = 0; kspace = one_page_heap }

first_example :
    (p : ℕ) × (k' : Kalloc) × (kernel_alloc fresh 255 4 ≡ some (p, k'))
    × (p + 255 ≡ 0xd0000000 + 1024)
    × (sz_of k'.memory (p - 8) ≡ 255 + 8)
    × IsNextFree k' 0xd0000000 (1024 - (255 + 8))
    × IsBytes k'.memory
    × IsHeap k'.kspace
    × (k'.kspace.kernel_break ≡ 0xd0000000 + 2 * 1024)
first_example =
    kernel_alloc_first fresh 255 0 one_page_heap-IsHeap refl refl refl (omega arith) (omega arith)
      (omega arith) (λ a. omega arith)
