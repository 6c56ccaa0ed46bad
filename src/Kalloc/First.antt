-- ===== src/Kalloc/First.antt =====
-- The first call of `kernel_alloc`, which has no list to search yet.
use missy_micro.Common.{ℕ, suc, ◌+◌, ◌-◌, ◌*◌, ◌≡◌, ◌≤◌, ◌<◌, inl, refl}
use missy_micro.Common.{◌∙◌, arith, some, leb, ◌==◌, u32, true, false}
use missy_micro.Kalloc.{Kalloc, sz_of, set_sz, set_next, take_block, search, start_list}
use missy_micro.Kalloc.{kernel_alloc}
use missy_micro.Kalloc.{morecore}
use missy_micro.Common.{ap, ==_self}
use missy_micro.Libc.Compare.{IsBytes}
use missy_micro.Kalloc.Words.{set_sz-IsBytes, set_next-IsBytes}
use missy_micro.Heap.{Kspace, kspace_sbrk}
use missy_micro.Heap.Grow.{IsHeap}
use missy_micro.Kalloc.Words.{sz_of-set_sz, next_of-set_sz}
use missy_micro.Kalloc.Split.{IsNextFree, take_block-split, after_split, after_split-IsSplit}
use missy_micro.Kalloc.Words.{next_of-set_next}
use missy_micro.Kalloc.Insert.{IsAlone, IsPair, IsTriple, first_linked, second_linked, free_alone}
use missy_micro.Kalloc.Insert.{first_linked-IsPair, free_pair, second_linked-IsTriple}
use missy_micro.Kalloc.More.{morecore_lem, IsExtended, sbrk-IsExtended}

module _ (k : Kalloc) (n fuel : ℕ) (heap : IsHeap k.kspace) (fresh : k.free_hdr ≡ 0)
    (based : 0 < k.base) (low : k.base + 8 ≤ 0xd0000000) (small : n ≤ 1008)
    (at_start : k.kspace.kernel_break ≡ 0xd0000000)
    (one_page : k.kspace.kheap_last_page ≡ 0xd0000000) where
  abbrev once : Kspace
  once = (kspace_sbrk k.kspace 1024).1

  abbrev twice : Kspace
  twice = (kspace_sbrk once 1024).1

  first_core : IsExtended k.kspace once 0xd0000000
  first_core =
      sbrk-IsExtended k.kspace 0xd0000000 heap at_start one_page (omega arith) (omega arith)

  second_core : IsExtended once twice 0xd0000400
  second_core =
      sbrk-IsExtended once 0xd0000400 first_core.heap first_core.moved (first_core.last ∙ one_page)
        (omega arith) (omega arith)

  abbrev begun : Kalloc
  begun = record k { memory = set_sz (set_next k.memory k.base k.base) k.base 0; free_hdr = k.base }

  begun-IsAlone : IsAlone begun.memory k.base
  begun-IsAlone = record {
    next =
        next_of-set_sz (set_next k.memory k.base k.base) k.base k.base 0 (inl (omega arith))
        ∙ next_of-set_next k.memory k.base k.base (omega arith);
    size = sz_of-set_sz (set_next k.memory k.base k.base) k.base 0 (omega arith);
  }

  -- After the first block, and after the second.
  abbrev one_block : Kalloc
  one_block = first_linked (record begun { kspace = once }) 0xd0000000 0 (omega arith) low

  abbrev two_blocks : Kalloc
  two_blocks =
      second_linked (record one_block { kspace = twice }) 0xd0000000 0xd0000400 0 refl (omega arith)
        low

  first_more : morecore begun (n + 8) (suc (suc (suc fuel))) ≡ some (0xd0000000, one_block)
  first_more =
      morecore_lem begun one_block n 0xd0000000 (suc (suc (suc fuel))) small first_core.old
        (omega arith)
        (free_alone (record begun { kspace = once }) 0xd0000000 (suc (suc fuel)) (omega arith) low
          begun-IsAlone)

  one_block-IsPair : IsPair one_block.memory k.base 0xd0000000
  one_block-IsPair =
      first_linked-IsPair (record begun { kspace = once }) 0xd0000000 0 (omega arith) low
        begun-IsAlone

  second_more : morecore one_block (n + 8) (suc (suc fuel)) ≡ some (0xd0000400, two_blocks)
  second_more =
      morecore_lem one_block two_blocks n 0xd0000400 (suc (suc fuel)) small second_core.old
        (omega arith)
        (free_pair (record one_block { kspace = twice }) 0xd0000000 0xd0000400 fuel refl
          (omega arith) low one_block-IsPair)

  two_blocks-IsTriple : IsTriple two_blocks.memory k.base 0xd0000000 0xd0000400
  two_blocks-IsTriple =
      second_linked-IsTriple (record one_block { kspace = twice }) 0xd0000000 0xd0000400 0 refl
        (omega arith) low one_block-IsPair

  -- The list as the block is taken from it.
  abbrev listed : Kalloc
  listed = record two_blocks { free_hdr = k.base }

  listed-IsNextFree : IsNextFree listed 0xd0000000 1024
  listed-IsNextFree =
      let l = two_blocks-IsTriple in
      record {
        started = λ e. omega (arith, e);
        below = low;
        next = l.next;
        size_of = l.second;
        inside = omega arith;
      }

  abbrev piece : ℕ
  piece = 0xd0000000 + (1024 - (n + 8)) + 8

  abbrev taken : Kalloc
  taken = after_split listed 0xd0000000 1024 (n + 8)

  taken-IsBytes : IsBytes k.memory → IsBytes taken.memory
  taken-IsBytes bytes =
      let started = set_sz-IsBytes _ k.base 0 (set_next-IsBytes k.memory k.base k.base bytes) in
      let one =
        set_next-IsBytes _ k.base 0xd0000000
          (set_next-IsBytes _ 0xd0000000 k.base (set_sz-IsBytes _ 0xd0000000 1024 started)) in
      let two =
        set_next-IsBytes _ 0xd0000000 0xd0000400
          (set_next-IsBytes _ 0xd0000400 k.base (set_sz-IsBytes _ 0xd0000400 1024 one)) in
      set_sz-IsBytes _ (0xd0000000 + (1024 - (n + 8))) (n + 8)
        (set_sz-IsBytes _ 0xd0000000 (1024 - (n + 8)) two)

  take_listed :
      take_block two_blocks k.base 0xd0000000 (n + 8) ≡ take_block listed k.base 0xd0000000 (n + 8)
  unfolding take_block
  take_listed = refl

  search_second : search two_blocks k.base 0xd0000000 (n + 8) (suc fuel) ≡ some (piece, taken)
  unfolding search
  search_second =
      let big : leb (n + 8) 1024 ≡ true = ground arith in
      rw (search, two_blocks-IsTriple.second, big, take_listed)
        (ap some (
          take_block-split listed 0xd0000000 1024 (n + 8) listed-IsNextFree (omega arith)
            (omega arith)))

  too_small : leb (n + 8) 0 ≡ false
  too_small = ground arith

  search_head : search two_blocks 0xd0000400 k.base (n + 8) (suc (suc fuel)) ≡ some (piece, taken)
  unfolding search
  search_head =
      let l = two_blocks-IsTriple in
      let passed : (k.base == 0xd0000000) ≡ false = ground (arith, low) in
      rw (search, l.size, too_small, passed, l.next) search_second

  search_again :
      search one_block 0xd0000000 k.base (n + 8) (suc (suc (suc fuel))) ≡ some (piece, taken)
  unfolding search
  search_again =
      let self : (k.base == k.base) ≡ true = ==_self k.base in
      rw (search, one_block-IsPair.size, too_small, self, second_more, two_blocks-IsTriple.around)
        search_head

  search-begun :
      search begun k.base k.base (n + 8) (suc (suc (suc (suc fuel)))) ≡ some (piece, taken)
  unfolding search
  search-begun =
      let self : (k.base == k.base) ≡ true = ==_self k.base in
      rw (search, begun-IsAlone.size, too_small, self, first_more, one_block-IsPair.back)
        search_again

  kernel_alloc-begun : kernel_alloc k n (suc (suc (suc (suc fuel)))) ≡ some (piece, taken)
  unfolding kernel_alloc start_list
  kernel_alloc-begun =
      let header : u32 (n + 8) ≡ n + 8 = omega arith in
      rw (fresh, header, begun-IsAlone.next) search-begun

-- With the heap in order, one page long and its break at its start, no list yet, a head of the
-- list that lies below the heap, at most 1008 bytes asked for and a fuel of four or more,
-- `kernel_alloc` makes the list and extends the heap twice, by 1024 bytes each: the piece it
-- returns ends where the first 1024 bytes end, with its size in the header before it, the rest
-- of them is the block after the head, and the heap is in order.
pub kernel_alloc_first :
    (k : Kalloc) (n fuel : ℕ)
    → IsHeap k.kspace
    → k.kspace.kernel_break ≡ 0xd0000000
    → k.kspace.kheap_last_page ≡ 0xd0000000
    → k.free_hdr ≡ 0
    → 0 < k.base
    → k.base + 8 ≤ 0xd0000000
    → n ≤ 1008
    → IsBytes k.memory
    → (p : ℕ) × (k' : Kalloc) × (kernel_alloc k n (suc (suc (suc (suc fuel)))) ≡ some (p, k'))
      × (p + n ≡ 0xd0000000 + 1024)
      × (sz_of k'.memory (p - 8) ≡ n + 8)
      × IsNextFree k' 0xd0000000 (1024 - (n + 8))
      × IsBytes k'.memory
      × IsHeap k'.kspace
      × (k'.kspace.kernel_break ≡ 0xd0000000 + 2 * 1024)
kernel_alloc_first k n fuel heap at_start one_page fresh based low small bytes =
    let split =
      after_split-IsSplit (listed k n fuel heap fresh based low small at_start one_page) 0xd0000000
        1024 n (listed-IsNextFree k n fuel heap fresh based low small at_start one_page)
        (omega arith) in
    let core = second_core k n fuel heap fresh based low small at_start one_page in
    (
      piece k n fuel heap fresh based low small at_start one_page,
      taken k n fuel heap fresh based low small at_start one_page,
      kernel_alloc-begun k n fuel heap fresh based low small at_start one_page,
      split.at_end,
      split.header,
      split.left,
      taken-IsBytes k n fuel heap fresh based low small at_start one_page bytes,
      core.heap,
      core.moved,
    )
