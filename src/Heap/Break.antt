-- ===== src/Heap/Break.antt =====
-- `kspace_brk` and `kspace_sbrk` of kernel/kernel/memory/kmemory.c.
use missy_micro.Common.{ℕ, ◌+◌, ◌-◌, ◌*◌, ◌/◌, ◌%◌, ◌^◌, ◌≤◌, ◌<◌, ◌≡◌, ◌≢◌, refl, ap, sym}
use missy_micro.Common.{arith, none, u32, sub32, ltb, ltb→lt}
use missy_micro.Common.{Bool-cases, inl, inr, bit_and}
use missy_micro.Paging.{ok}
use missy_micro.Paging.Entries.{bit_and_page}
use missy_micro.Paging.Walk.{translate}
use missy_micro.Heap.{Kspace, add_heap_pages, kspace_brk, kspace_sbrk}
use missy_micro.Heap.Grow.{IsHeap, add_heap_pages_lem}

-- The page of an address.
abbrev pub page_start : ℕ → ℕ
page_start a = a / 4096 * 4096

-- The number of pages that `kspace_brk` adds for a break at `bp`.
abbrev pub pages_to : Kspace → ℕ → ℕ
pages_to k bp = (page_start bp - k.kheap_last_page) / 4096

-- `l` is `k` with the break at `bp`, every page up to it mapped.
pub record IsBroken (k l : Kspace) (bp : ℕ) : Type 0 where
  pub heap : IsHeap l
  pub moved : l.kernel_break ≡ bp
  pub last : l.kheap_last_page ≡ page_start bp
  pub same_errno : l.errno ≡ k.errno
  pub cost : k.memory.alloc.free_blocks ≤ l.memory.alloc.free_blocks + 2 * pages_to k bp

-- The three ways through `kspace_brk` for a break in the heap's region.
brk_same_page :
    (k : Kspace) (bp : ℕ)
    → bp ≤ 0xeffff000
    → page_start bp ≡ k.kheap_last_page
    → kspace_brk k bp ≡ (ok, record k { kernel_break = bp })
unfolding kspace_brk
brk_same_page k bp top same = ground (arith, bit_and_page bp (omega arith))

brk_later_page :
    (k : Kspace) (bp : ℕ)
    → bp ≤ 0xeffff000
    → k.kheap_last_page < page_start bp
    → k.kheap_last_page % 4096 ≡ 0
    → (add_heap_pages k (pages_to k bp)).0 ≡ ok
    → kspace_brk k bp ≡ (ok, record (add_heap_pages k (pages_to k bp)).1 { kernel_break = bp })
unfolding kspace_brk
brk_later_page k bp top later aligned grown =
    ground (arith, bit_and_page bp (omega arith), ap (add_heap_pages k) rounds)
  where
    rounds : sub32 (bit_and bp 0xfffff000) k.kheap_last_page / 2 ^ 12 ≡ pages_to k bp
    rounds = omega (arith, bit_and_page bp (omega arith))

brk_earlier_page :
    (k : Kspace) (bp : ℕ)
    → bp ≤ 0xeffff000
    → page_start bp < k.kheap_last_page
    → kspace_brk k bp ≡ (ok, k)
unfolding kspace_brk
brk_earlier_page k bp top earlier = ground (arith, bit_and_page bp (omega arith))

-- The break is no part of the heap's invariant.
moved-IsHeap : (k : Kspace) (bp : ℕ) → IsHeap k → IsHeap (record k { kernel_break = bp })
moved-IsHeap k bp h = record {
  paged = h.paged;
  aligned = h.aligned;
  low = h.low;
  mapped = h.mapped;
  ahead = h.ahead;
}

-- For a heap in order, a break inside its region, in the last page of the heap or after it,
-- succeeds if memory has two free blocks for each page to be added: the break is at the address
-- asked for, the last page of the heap is the page of that address, the heap is in order, every
-- page up to its last mapped and none after it, and errno stays.
pub kspace_brk_lem :
    (k : Kspace) (bp : ℕ)
    → IsHeap k
    → bp ≤ 0xeffff000
    → k.kheap_last_page ≤ page_start bp
    → 2 * pages_to k bp ≤ k.memory.alloc.free_blocks
    → ((kspace_brk k bp).0 ≡ ok) × IsBroken k (kspace_brk k bp).1 bp
kspace_brk_lem k bp h top after free = elim (Bool-cases (ltb k.kheap_last_page (page_start bp))) [
  | inl later ↦
      let (status, g) = add_heap_pages_lem (pages_to k bp) k h (omega (arith, h.aligned)) free in
      rw (brk_later_page k bp top (ltb→lt _ _ later) h.aligned status) (
        refl,
        record {
          heap = moved-IsHeap (add_heap_pages k (pages_to k bp)).1 bp g.heap;
          moved = refl;
          last = omega (arith, g.last, h.aligned, ltb→lt _ _ later);
          same_errno = g.same_errno;
          cost = g.cost;
        },
      )
  | inr same ↦
      let page : page_start bp ≡ k.kheap_last_page = ground arith in
      rw (brk_same_page k bp top page) (
        refl,
        record {
          heap = moved-IsHeap k bp h;
          moved = refl;
          last = sym page;
          same_errno = refl;
          cost = omega arith;
        },
      )
]

-- For a heap in order, with the old break in its last page, the new break inside its region and
-- two free blocks of memory for each page to be added, `kspace_sbrk` returns the old break and
-- moves it up by the increment, and the heap is in order.
pub kspace_sbrk_lem :
    (k : Kspace) (increment : ℕ)
    → IsHeap k
    → k.kernel_break + increment ≤ 0xeffff000
    → page_start k.kernel_break ≡ k.kheap_last_page
    → 2 * pages_to k (k.kernel_break + increment) ≤ k.memory.alloc.free_blocks
    → ((kspace_sbrk k increment).0 ≡ k.kernel_break)
      × IsBroken k (kspace_sbrk k increment).1 (k.kernel_break + increment)
unfolding kspace_sbrk
kspace_sbrk_lem k increment h top here free =
    let word : u32 (k.kernel_break + increment) ≡ k.kernel_break + increment = omega arith in
    let (status, b) = kspace_brk_lem k (k.kernel_break + increment) h top (omega arith) free in
    let broken : kspace_brk k (k.kernel_break + increment)
        ≡ (ok, (kspace_brk k (k.kernel_break + increment)).1) =
      λ i. (status i, (kspace_brk k (k.kernel_break + increment)).1) in
    rw (word, broken) (refl, b)

-- Two calls of `kspace_sbrk` in a row hand out adjacent pieces of a heap in order, if the break
-- lies in the last page of the heap, stays in its region, and memory has enough free blocks:
-- the second piece begins where the first ends, and every address of both is mapped.
pub sbrk-sbrk :
    (k : Kspace) (a b : ℕ)
    → IsHeap k
    → k.kernel_break + a + b ≤ 0xeffff000
    → page_start k.kernel_break ≡ k.kheap_last_page
    → 2 * pages_to k (k.kernel_break + a) + 2 * (b / 4096 + 1) ≤ k.memory.alloc.free_blocks
    → let (p, l) = kspace_sbrk k a in
      let (q, n) = kspace_sbrk l b in
      (p ≡ k.kernel_break)
      × (q ≡ p + a)
      × ((x : ℕ) → p ≤ x → x < q + b → translate n.memory.paging x ≢ none)
sbrk-sbrk k a b h top here free =
    let (old, first) = kspace_sbrk_lem k a h (omega arith) here (omega arith) in
    let l = (kspace_sbrk k a).1 in
    let (next, second) =
      kspace_sbrk_lem l b first.heap (omega (arith, first.moved))
        (omega (arith, first.moved, first.last))
        (omega (arith, first.cost, first.moved, first.last)) in
    (
      old,
      omega (arith, old, next, first.moved),
      λ x lo hi.
          second.heap.mapped x (omega (arith, old, h.low))
            (omega (arith, next, first.moved, second.last)),
    )

-- Where the new break, taken modulo 2 ^ 32, is no higher than the end of the region of the heap
-- and its page lies below the last page of the heap, `kspace_sbrk` returns the old break and
-- changes nothing, the break included.
pub kspace_sbrk_stuck :
    (k : Kspace) (increment : ℕ)
    → u32 (k.kernel_break + increment) ≤ 0xeffff000
    → page_start (u32 (k.kernel_break + increment)) < k.kheap_last_page
    → kspace_sbrk k increment ≡ (k.kernel_break, k)
unfolding kspace_sbrk
kspace_sbrk_stuck k increment top below =
    let same = brk_earlier_page k (u32 (k.kernel_break + increment)) top below in rw same
