-- ===== src/Kernel/Space.antt =====
-- `kmemory_initialize` of kernel/kernel/memory/kmemory.c, from the loader's map to the first page
-- directory.
use missy_micro.Common.{ℕ, suc, ◌+◌, ◌*◌, ◌/◌, ◌%◌, ◌^◌, ◌≤◌, ◌<◌, ◌≡◌, ◌≢◌, refl, arith}
use missy_micro.Common.{Bool, true, false, if◌then◌else◌, some, none, sub32, ltb}
use missy_micro.Common.{Bool-cases, inl, inr}
use missy_micro.Balloc.{Balloc, balloc_get}
use missy_micro.Balloc.Bitmap.{used}
use missy_micro.Balloc.Count.{IsAccounted}
use missy_micro.Balloc.Alloc.{balloc_get_lem}
use missy_micro.Balloc.Boot.{kernel_total_sz}
use missy_micro.Balloc.Region.{region_blocks}
use missy_micro.Paging
use missy_micro.Paging.{Paging, Memory, dir_entry, table_frame}
use missy_micro.Paging.Walk.{translate, IsPaged, IsNoTable, Spares}
use missy_micro.Paging.Spaces.{vmmngr_initialize}
use missy_micro.Paging.Spaces.Initialize.{IsWordMemory, with_root, vmmngr_initialize_lem}
use missy_micro.Multiboot.{Multiboot}
use missy_micro.Multiboot.Structs.{multiboot2_tag_mmap}
use missy_micro.Physical.Laws.{kept_back, memory_size, map_entries, Inside, kmemory_prepare_lem}
use missy_micro.Kernel.{BootSetting, done, kmemory_initialize}
use missy_micro.Kernel.{after_prepare, after_paging}
use missy_micro.Kernel.Room.{count_free-run}

-- An address space as the boot code leaves it, over a memory of `total` blocks of which those in
-- `kept` are reserved: the directory maps itself, every table has a block of the first megabyte
-- of its own, and the first four megabytes are mapped to themselves, but nothing is mapped in the temporary page or the region of the heap.
pub record IsBootSpace (v : Paging) (kept : ℕ → Bool) (total : ℕ) : Type 0 where
  pub page : v.pdbr % 4096 ≡ 0
  pub self_present : dir_entry v 1023 % 2 ≡ 1
  pub self_frame : table_frame v 1023 ≡ v.pdbr / 4096
  pub low :
      (i : ℕ) → i < 1024 → dir_entry v i % 2 ≡ 1 → (table_frame v i ≢ 0) × (table_frame v i < 256)
  pub distinct :
      (i j : ℕ)
      → i < 1024
      → j < 1024
      → dir_entry v i % 2 ≡ 1
      → dir_entry v j % 2 ≡ 1
      → table_frame v i ≡ table_frame v j
      → i ≡ j
  pub words : IsWordMemory v
  pub identity : (a : ℕ) → a < 0x400000 → translate v a ≡ some a
  pub temporary : (a : ℕ) → a / 4096 ≡ 0xcffff → translate v a ≡ none
  pub heap : (a : ℕ) → 0xd0000000 ≤ a → a < 0xf0000000 → translate v a ≡ none

-- The allocator knows which blocks are reserved.
abbrev Shows : Balloc → (ℕ → Bool) → Type 0
Shows b kept = (c : ℕ) → c < b.total_blocks → used b.m_bmp c ≡ (if kept c then 1 else 0)

boot-IsPaged :
    (v : Paging) (b : Balloc) (kept : ℕ → Bool)
    → IsBootSpace v kept b.total_blocks
    → IsAccounted b
    → 257 ≤ b.total_blocks
    → ((c : ℕ) → c < 257 → kept c ≡ true)
    → Shows b kept
    → IsPaged (with_root (record { alloc = b; paging = v }))
boot-IsPaged v b kept boot exact room first shows = record {
  accounted = exact;
  zero_used = ground (arith, shows 0, first 0);
  root = refl;
  self_present = boot.self_present;
  self_frame = boot.self_frame;
  owned =
      λ i lt e. ground (arith, boot.low i lt e, shows (table_frame v i), first (table_frame v i));
  distinct = boot.distinct;
}

-- No table of the directory lies in the frame.
abbrev pub IsOffTables : Paging → ℕ → Type 0
IsOffTables v f = (i : ℕ) → i < 1024 → dir_entry v i % 2 ≡ 1 → table_frame v i ≢ f

-- Four free blocks in a row, below the end of the identity map.
abbrev pub HasRoom : (ℕ → Bool) → ℕ → ℕ → Type 0
HasRoom kept total c =
    (c + 4 ≤ 1024) × (c + 4 ≤ total) × ((i : ℕ) → c ≤ i → i < c + 4 → kept i ≡ false)

paging_lem :
    (v : Paging) (b : Balloc) (kept : ℕ → Bool) (c : ℕ)
    → IsBootSpace v kept b.total_blocks
    → IsAccounted b
    → 257 ≤ b.total_blocks
    → ((i : ℕ) → i < 257 → kept i ≡ true)
    → Shows b kept
    → HasRoom kept b.total_blocks c
    → (n : Memory) × (vmmngr_initialize (record { alloc = b; paging = v }) ≡ some (Paging.ok, n))
      × IsPaged n
      × (2 ≤ n.alloc.free_blocks)
      × Spares (record { alloc = b; paging = v }) n
      × ((a : ℕ) → a / 0x400000 < 1023 → translate n.paging a ≡ translate v a)
paging_lem v b kept c boot exact room first shows (low, inside, clear) =
    let m : Memory = record { alloc = b; paging = v } in
    let paged = boot-IsPaged v b kept boot exact room first shows in
    let free : (i : ℕ) → c ≤ i → i < c + 4 → used b.m_bmp i ≡ 0 =
      λ i lo hi. ground (arith, shows i (omega arith), clear i lo hi) in
    let four : 4 ≤ b.free_blocks =
      omega (arith, exact.counted, count_free-run b.m_bmp b.total_blocks c 4 free inside) in
    let (f, g) = balloc_get_lem b exact paged.zero_used (omega arith) in
    let near : (balloc_get b).0 < 0x400000 = elim (Bool-cases (ltb c f)) [
      | inl after ↦ absurd (ground (arith, after, g.first.first c, free c))
      | inr before ↦ ground (arith, before, g.address)
    ] in
    let (n, run, ok, root, cost, spares, walks) =
      vmmngr_initialize_lem m paged boot.words boot.page (omega arith) near boot.identity
        boot.temporary in
    (n, run, ok, omega arith, spares, walks)

-- What a setting and the loader's data determine: the size of memory and the blocks reserved.
module _ (e : BootSetting) (m : ℕ → ℕ) (s : Multiboot) (n fuel : ℕ) where
  abbrev pub total : ℕ
  total = memory_size m s e.kernel_start e.kernel_end e.ram n fuel / 4096

  abbrev pub reserved_blocks : ℕ → Bool
  reserved_blocks =
      kept_back e.kernel_start e.kernel_end
        (memory_size m s e.kernel_start e.kernel_end e.ram n fuel)
        (map_entries m s e.kernel_start e.kernel_end e.ram n fuel)

  -- A memory map of the second format of `n + 1` entries, for a memory that has room for the
  -- kernel and the reserved regions.
  pub record IsMap : Type 0 where
    pub magic : s.boot_magic ≡ 0x36d76289
    pub start : s.multiboot_cur_mmap ≡ 0
    pub entry_sz : (multiboot2_tag_mmap m s.mb2_memory_map).entry_sz ≡ 24
    pub size : (multiboot2_tag_mmap m s.mb2_memory_map).tag.size ≡ 16 + 24 * suc n
    pub no_wrap : s.mb2_memory_map + 16 + 24 * suc n < 2 ^ 32
    pub low : 257 ≤ total
    pub kernel :
        sub32 e.kernel_start 0xbff00000 / 4096
          + region_blocks (
              kernel_total_sz e.kernel_start e.kernel_end
                (memory_size m s e.kernel_start e.kernel_end e.ram n fuel))
        ≤ total
    pub inside : Inside total (map_entries m s e.kernel_start e.kernel_end e.ram n fuel)
    pub fuelled : n < fuel

  pub first_reserved : (c : ℕ) → c < 257 → reserved_blocks c ≡ true
  first_reserved c lt = ground arith

  pub kmemory_initialize_lem :
      IsMap
      → (v : Paging) (c : ℕ) → IsBootSpace v reserved_blocks total
      → HasRoom reserved_blocks total c
      → (s' : Multiboot) × (mem : Memory) × (kmemory_initialize e fuel m s v ≡ done (s', mem))
        × IsPaged mem
        × (2 ≤ mem.alloc.free_blocks)
        × ((f : ℕ)
            → f < total
            → reserved_blocks f ≡ true
            → IsOffTables v f
            → (used mem.alloc.m_bmp f ≡ 1) × IsNoTable mem f)
        × ((a : ℕ) → a / 0x400000 < 1023 → translate mem.paging a ≡ translate v a)
  unfolding kmemory_initialize after_prepare after_paging
  kmemory_initialize_lem h v c boot room =
      let (s', b, run, blocks, exact, digits) =
        kmemory_prepare_lem m s e.kernel_start e.kernel_end e.ram n fuel h.magic h.start h.entry_sz
          h.size h.no_wrap h.low h.kernel h.inside h.fuelled in
      let shows : Shows b reserved_blocks = λ i lt. digits i (omega (arith, exact.units)) in
      let (mem, begun, paged, free, spares, walks) =
        paging_lem v b reserved_blocks c (rw blocks boot) exact (rw blocks h.low) first_reserved
          shows (rw blocks room) in
      (
        s',
        mem,
        rw (run, begun) refl,
        paged,
        free,
        λ f lt kept off. spares f (ground (arith, rw blocks at shows f, lt, kept)) off,
        walks,
      )
