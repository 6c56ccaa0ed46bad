-- ===== src/Heap/Grow.antt =====
-- The loop of `kspace_brk` in kernel/kernel/memory/kmemory.c, which adds pages to the heap.
use missy_micro.Common.{ℕ, zero, suc, ◌+◌, ◌*◌, ◌%◌, ◌≤◌, ◌<◌, ◌≡◌, ◌≢◌, refl, ◌∙◌}
use missy_micro.Common.{arith, none, ==_ne, u32}
use missy_micro.Balloc.{balloc_get}
use missy_micro.Balloc.Alloc.{granted-ne_zero, balloc_get_lem}
use missy_micro.Paging.{Memory, Status}
use missy_micro.Paging.Kept.{IsPaged-granted}
use missy_micro.Paging.Walk.{translate, IsPaged}
use missy_micro.Paging.Map.{vmmngr_map_page_lem}
use missy_micro.Heap.{Kspace, map_heap_page, add_heap_page, add_heap_pages}

-- The pages of the heap up to `kheap_last_page` are mapped, and those after it are not.
pub record IsHeap (k : Kspace) : Type 0 where
  pub paged : IsPaged k.memory
  pub aligned : k.kheap_last_page % 4096 ≡ 0
  pub low : 0xd0000000 ≤ k.kheap_last_page
  pub mapped :
      (a : ℕ) → 0xd0000000 ≤ a → a < k.kheap_last_page + 4096 → translate k.memory.paging a ≢ none
  pub ahead :
      (a : ℕ) → k.kheap_last_page + 4096 ≤ a → a < 0xf0000000 → translate k.memory.paging a ≡ none

-- `l` is `k` with `n` pages more.
pub record IsGrown (k l : Kspace) (n : ℕ) : Type 0 where
  pub heap : IsHeap l
  pub last : l.kheap_last_page ≡ k.kheap_last_page + n * 4096
  pub same_break : l.kernel_break ≡ k.kernel_break
  pub same_errno : l.errno ≡ k.errno
  pub cost : k.memory.alloc.free_blocks ≤ l.memory.alloc.free_blocks + 2 * n

add_heap_page_lem :
    (k : Kspace)
    → IsHeap k
    → k.kheap_last_page + 4096 < 0xf0000000
    → 2 ≤ k.memory.alloc.free_blocks
    → ((add_heap_page k).0 ≡ Status.ok) × IsGrown k (add_heap_page k).1 1
unfolding add_heap_page map_heap_page
add_heap_page_lem k h room free =
    let (b, g) = balloc_get_lem k.memory.alloc h.paged.accounted h.paged.zero_used (omega arith) in
    let block = (balloc_get k.memory.alloc).0 in
    let m : Memory = record { alloc = (balloc_get k.memory.alloc).1; paging = k.memory.paging } in
    let virt = u32 (k.kheap_last_page + 4096) in
    let b≢0 : block ≢ 0 = (granted-ne_zero k.memory.alloc m.alloc b block h.paged.zero_used g).1 in
    let (status, n) =
      vmmngr_map_page_lem m block virt (IsPaged-granted k.memory b block m.alloc h.paged g)
        (omega (arith, g.count)) (omega (arith, g.address)) (omega arith)
        (h.ahead virt (omega arith) (omega arith)) in
    rw (==_ne block 0 b≢0, status, map_heap_page)
      (
        refl,
        record {
          heap = record {
            paged = n.paged;
            aligned = omega (arith, h.aligned);
            low = omega (arith, h.low);
            mapped = λ a lo hi. ground (arith, n.walks a, h.mapped a);
            ahead = λ a lo hi. ground (arith, n.walks a, h.ahead a);
          };
          last = omega arith;
          same_break = refl;
          same_errno = refl;
          cost = omega (arith, n.cost, g.count);
        },
      )

pub add_heap_pages_lem :
    (n : ℕ) (k : Kspace)
    → IsHeap k
    → k.kheap_last_page + n * 4096 < 0xf0000000
    → 2 * n ≤ k.memory.alloc.free_blocks
    → ((add_heap_pages k n).0 ≡ Status.ok) × IsGrown k (add_heap_pages k n).1 n
unfolding add_heap_pages
add_heap_pages_lem zero k h room free = (
  refl,
  record { heap = h; last = omega arith; same_break = refl; same_errno = refl; cost = omega arith },
)
add_heap_pages_lem (suc n) k h room free =
    let (status, one) = add_heap_page_lem k h (omega arith) (omega arith) in
    let (rest, more) =
      add_heap_pages_lem n (add_heap_page k).1 one.heap (omega (arith, one.last))
        (omega (arith, one.cost)) in
    rw (status, add_heap_pages)
      (
        rest,
        record {
          heap = more.heap;
          last = omega (arith, one.last, more.last);
          same_break = more.same_break ∙ one.same_break;
          same_errno = more.same_errno ∙ one.same_errno;
          cost = omega (arith, one.cost, more.cost);
        },
      )
