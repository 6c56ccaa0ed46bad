-- ===== src/Kalloc/More.antt =====
-- `morecore` of a request that fits into the least size, inside the first page of the heap.
use missy_micro.Common.{ℕ, ◌+◌, ◌≡◌, ◌≤◌, ◌<◌, refl}
use missy_micro.Common.{◌∙◌, arith, some, ltb, ◌==◌, u32, false}
use missy_micro.Kalloc.{Kalloc, set_sz}
use missy_micro.Kalloc.{kernel_free}
use missy_micro.Kalloc.{morecore, add_core}
use missy_micro.Common.{if◌then◌else◌, ap}
use missy_micro.Heap.{Kspace, kspace_sbrk, no_memory}
use missy_micro.Heap.Grow.{IsHeap}
use missy_micro.Heap.Break.{kspace_sbrk_lem}

core_found :
    (k freed : Kalloc) (h fuel : ℕ) (kspace : Kspace)
    → h < 0xffffffff
    → kernel_free (record k { memory = set_sz k.memory h 1024; kspace = kspace }) (u32 (h + 8)) fuel
      ≡ some freed
    → add_core k 1024 fuel (h, kspace) ≡ some (h, freed)
unfolding add_core
core_found k freed h fuel kspace fits run =
    let found : (h == no_memory) ≡ false = ground arith in rw (found, run) refl

core_added :
    (k freed : Kalloc) (h fuel : ℕ) (r : ℕ × Kspace)
    → r.0 ≡ h
    → h < 0xffffffff
    → kernel_free (record k { memory = set_sz k.memory h 1024; kspace = r.1 }) (u32 (h + 8)) fuel
      ≡ some freed
    → add_core k 1024 fuel r ≡ some (h, freed)
core_added k freed h fuel (next, kspace) e fits run =
    ap (λ (x : ℕ). add_core k 1024 fuel (x, kspace)) e ∙ core_found k freed h fuel kspace fits run

-- Another 1024 bytes, which every request of at most 1008 bytes takes.
pub morecore_lem :
    (k freed : Kalloc) (n h fuel : ℕ)
    → n ≤ 1008
    → (kspace_sbrk k.kspace 1024).0 ≡ h
    → h < 0xffffffff
    → kernel_free
        (record k { memory = set_sz k.memory h 1024; kspace = (kspace_sbrk k.kspace 1024).1 })
        (u32 (h + 8))
        fuel
      ≡ some freed
    → morecore k (n + 8) fuel ≡ some (h, freed)
unfolding morecore
morecore_lem k freed n h fuel small got fits run =
    let header : u32 (n + 8 + 8) ≡ n + 16 = omega arith in
    let least : (if ltb (n + 16) 1024 then 1024 else n + 16) ≡ 1024 = ground arith in
    rw (header, least) (core_added k freed h fuel (kspace_sbrk k.kspace 1024) got fits run)

-- The two extensions of the heap, which stay in its first page.
pub record IsExtended (k l : Kspace) (h : ℕ) : Type 0 where
  pub heap : IsHeap l
  pub old : (kspace_sbrk k 1024).0 ≡ h
  pub moved : l.kernel_break ≡ h + 1024
  pub last : l.kheap_last_page ≡ k.kheap_last_page

pub sbrk-IsExtended :
    (k : Kspace) (h : ℕ)
    → IsHeap k
    → k.kernel_break ≡ h
    → k.kheap_last_page ≡ 0xd0000000
    → 0xd0000000 ≤ h
    → h + 1024 < 0xd0001000
    → IsExtended k (kspace_sbrk k 1024).1 h
sbrk-IsExtended k h heap at page from to =
    let (old, l) =
      kspace_sbrk_lem k 1024 heap (omega (arith, at)) (omega (arith, at, page))
        (omega (arith, at, page)) in
    record {
      heap = l.heap;
      old = old ∙ at;
      moved = l.moved ∙ ap (λ (x : ℕ). x + 1024) at;
      last = l.last ∙ omega (arith, at, page);
    }
