-- ===== src/Physical/Laws.antt =====
-- Which blocks are reserved when the memory map is read.
use missy_micro.Common.{ℕ, zero, suc, ◌+◌, ◌*◌, ◌/◌, ◌^◌, ◌≡◌, ◌≤◌, ◌<◌, ◌≢◌, refl, sym, ap}
use missy_micro.Common.{◌∙◌, arith, u32, sub32}
use missy_micro.Common.{Bool, Bool-cases, inl, inr, not, ◌&&◌, ◌||◌, some, ◌==◌, if◌then◌else◌}
use missy_micro.Common.{true, false}
use missy_micro.Common.{List, [], ◌∷◌}
use missy_micro.Balloc.{Balloc}
use missy_micro.Balloc.Bitmap.{used}
use missy_micro.Balloc.Count.{IsAccounted}
use missy_micro.Balloc.Region.{init_region-SameSizes, within, region_blocks}
use missy_micro.Balloc.Region.{balloc_init_region_lem}
use missy_micro.Balloc.Boot.{balloc_initialize, kernel_total_sz}
use missy_micro.Balloc.Boot.Laws.{reserved, balloc_initialize_lem}
use missy_micro.Multiboot.{Multiboot, multiboot_get_memsz, copy_entry2}
use missy_micro.Multiboot.Structs.{MmapData, multiboot2_tag_mmap}
use missy_micro.Multiboot.MemoryMap.{entries_from, ReadsAt, at_entry, mboot2_ReadsAt}
use missy_micro.Physical.{mark_region, mark_regions, read_map, kmemory_prepare, Prepared}

-- The regions of a list of entries, marked in order.
abbrev pub mark_all : Balloc → List MmapData → Balloc
mark_all b [] = b
mark_all b (e ∷ es) = mark_all (mark_region b e) es

mark_regions_from :
    (m : ℕ → ℕ) (s : Multiboot) (b : Balloc) (e : MmapData) (copy : ℕ → MmapData)
    (first total left cur fuel : ℕ)
    → ReadsAt m s copy first total
    → cur + left ≡ total
    → left < fuel
    → mark_regions m (at_entry s cur) b e fuel
      ≡ some (at_entry s total, mark_all b (e ∷ entries_from copy (first + 24 * cur) left))
unfolding mark_regions
mark_regions_from m s b e copy first total left cur zero h at_cur lt = elim lt [ ]
mark_regions_from m s b e copy first total zero cur (suc fuel) h at_cur lt =
    let at_end : total ≡ cur = omega arith in
    rw (mark_regions, rw at_end at h.1)
      (ap (λ n. some (at_entry s n, mark_region b e)) (sym at_end))
mark_regions_from m s b e copy first total (suc left) cur (suc fuel) h at_cur lt =
    let there : first + 24 * (cur + 1) ≡ first + 24 * cur + 24 = omega arith in
    rw (mark_regions, h.0 cur (omega arith))
      (mark_regions_from m s (mark_region b e) (copy (first + 24 * cur)) copy first total left
          (cur + 1) fuel h (omega arith) (omega arith)
        ∙ ap
            (λ p. some (
              at_entry s total,
              mark_all (mark_region b e) (copy (first + 24 * cur) ∷ entries_from copy p left),
            ))
            there)

-- A block in a region of the list that is not of type 1.
abbrev pub in_regions : List MmapData → ℕ → Bool
in_regions [] c = false
in_regions (e ∷ es) c =
    (not (e.kind == 1) && within (u32 e.base / 4096) (region_blocks (u32 e.len)) c)
    || in_regions es c

-- Those regions lie inside the memory of `n` blocks.
abbrev pub Inside : ℕ → List MmapData → Type 0
Inside n [] = Unit
Inside n (e ∷ es) = ((e.kind ≢ 1) → u32 e.base / 4096 + region_blocks (u32 e.len) ≤ n) × Inside n es

-- An allocator with an exact count that has the same memory.
pub record IsMarked (b b' : Balloc) (marks : ℕ → Bool) : Type 0 where
  pub total : b'.total_blocks ≡ b.total_blocks
  pub exact : IsAccounted b'
  pub digits : (c : ℕ) → used b'.m_bmp c ≡ (if marks c then 1 else used b.m_bmp c)

mark_region-IsMarked :
    (b : Balloc) (e : MmapData)
    → IsAccounted b
    → (e.kind ≢ 1 → u32 e.base / 4096 + region_blocks (u32 e.len) ≤ b.total_blocks)
    → IsMarked b
        (mark_region b e)
        (λ c. not (e.kind == 1) && within (u32 e.base / 4096) (region_blocks (u32 e.len)) c)
unfolding mark_region
mark_region-IsMarked b e a fits = elim (Bool-cases (e.kind == 1)) [
  | inl free ↦ rw free (record { total = refl; exact = a; digits = λ c. refl })
  | inr taken ↦
      let (digits, exact) =
        balloc_init_region_lem b (u32 e.base) (u32 e.len) a (fits (λ is_free. ground arith)) in
      rw taken (record {
        total = (init_region-SameSizes b (u32 e.base) (u32 e.len)).total;
        exact = exact;
        digits = λ c. digits c;
      })
]

mark_all-IsMarked :
    (b : Balloc) (es : List MmapData)
    → IsAccounted b
    → Inside b.total_blocks es
    → IsMarked b (mark_all b es) (in_regions es)
mark_all-IsMarked b [] a inside = record { total = refl; exact = a; digits = λ c. refl }
mark_all-IsMarked b (e ∷ es) a inside =
    let one = mark_region-IsMarked b e a inside.0 in
    let rest = mark_all-IsMarked (mark_region b e) es one.exact (rw one.total inside.1) in
    record {
      total = rest.total ∙ one.total;
      exact = rest.exact;
      digits = λ c. ground (arith, rest.digits c, one.digits c);
    }

read_map_lem :
    (m : ℕ → ℕ) (s : Multiboot) (b : Balloc) (copy : ℕ → MmapData) (first n fuel : ℕ)
    → s.multiboot_cur_mmap ≡ 0
    → ReadsAt m s copy first (suc n)
    → n < fuel
    → read_map m s b fuel
      ≡ some (Prepared.ready (at_entry s (suc n), mark_all b (entries_from copy first (suc n))))
unfolding read_map
read_map_lem m s b copy first n fuel start h lt =
    let here : first + 24 * 0 ≡ first = omega arith in
    let there : first + 24 * (0 + 1) ≡ first + 24 = omega arith in
    let first_entry = rw here at (h.0 0 (omega arith)) in
    let loop =
      mark_regions_from m s b (copy first) copy first (suc n) n (0 + 1) fuel h (omega arith) lt in
    ap (λ cur. read_map m (at_entry s cur) b fuel) start
    ∙ rw (read_map, first_entry, rw there at loop) refl

-- The blocks that are reserved: those of `balloc_initialize`, and those of the regions.
abbrev pub kept_back : ℕ → ℕ → ℕ → List MmapData → ℕ → Bool
kept_back kernel_start kernel_end mem_sz es c =
    reserved kernel_start kernel_end mem_sz c || in_regions es c

Inside-le : (n k : ℕ) (es : List MmapData) → n ≡ k → Inside k es → Inside n es
Inside-le n k es e h = rw e h

mod_lt_word : (a : ℕ) → u32 a < 2 ^ 32
mod_lt_word a = omega arith

not_zero : (a : ℕ) → 257 ≤ a / 4096 → (a == 0) ≡ false
not_zero a h = ground arith

not_zero_quotient : (a : ℕ) → 257 ≤ a / 4096 → (a / 4096 == 0) ≡ false
not_zero_quotient a h = ground arith

both_marks :
    (x y : ℕ) (first second : Bool)
    → x ≡ (if second then 1 else y)
    → y ≡ (if first then 1 else 0)
    → x ≡ (if first || second then 1 else 0)
both_marks x y true true h k = h
both_marks x y true false h k = h ∙ k
both_marks x y false true h k = h
both_marks x y false false h k = h ∙ k

module _ (m : ℕ → ℕ) (s : Multiboot) (kernel_start kernel_end : ℕ) (ram : ℕ → ℕ) (n fuel : ℕ) where
  abbrev pub memory_size : ℕ
  memory_size = u32 (s.mb_memory_sz * 1024)

  abbrev pub map_entries : List MmapData
  map_entries = entries_from (copy_entry2 m) (s.mb2_memory_map + 16) (suc n)

  -- In the second format, from the start, with a map of one entry or more that does not wrap
  -- round the end of memory, with the first megabyte, the region of the kernel and every
  -- region of the map that is not of type 1 inside memory, and with enough fuel,
  -- `kmemory_prepare`, which is `kmemory_initialize` up to its call of `vmmngr_initialize`,
  -- succeeds with an exact count of the free blocks, and of the digits of the bitmap exactly
  -- those are set that `balloc_initialize` reserves or that lie in a region of the map that
  -- is not of type 1.
  pub kmemory_prepare_lem :
      s.boot_magic ≡ 0x36d76289
      → s.multiboot_cur_mmap ≡ 0
      → (multiboot2_tag_mmap m s.mb2_memory_map).entry_sz ≡ 24
      → (multiboot2_tag_mmap m s.mb2_memory_map).tag.size ≡ 16 + 24 * suc n
      → s.mb2_memory_map + 16 + 24 * suc n < 2 ^ 32
      → 257 ≤ memory_size / 4096
      → sub32 kernel_start 0xbff00000 / 4096
          + region_blocks (kernel_total_sz kernel_start kernel_end memory_size)
        ≤ memory_size / 4096
      → Inside (memory_size / 4096) map_entries
      → n < fuel
      → (s' : Multiboot) × (b : Balloc) × (kmemory_prepare m s kernel_start kernel_end ram fuel
          ≡ some (Prepared.ready (s', b)))
        × (b.total_blocks ≡ memory_size / 4096)
        × IsAccounted b
        × ((c : ℕ)
            → c < b.bmp_sz * 32
            → used b.m_bmp c
              ≡ (if kept_back kernel_start kernel_end memory_size map_entries c then 1 else 0))
  unfolding kmemory_prepare multiboot_get_memsz
  kmemory_prepare_lem magic start entry_sz size no_wrap low kernel inside lt =
      let booted = balloc_initialize kernel_start kernel_end ram memory_size in
      let (blocks, total, units, exact, digits) =
        balloc_initialize_lem kernel_start kernel_end ram memory_size
          (mod_lt_word (s.mb_memory_sz * 1024)) low kernel in
      let b' = mark_all booted.1 map_entries in
      let marked = mark_all-IsMarked booted.1 map_entries exact (
        Inside-le booted.1.total_blocks (memory_size / 4096) map_entries (total ∙ blocks) inside) in
      let map_read =
        read_map_lem m s booted.1 (copy_entry2 m) (s.mb2_memory_map + 16) n fuel start
          (mboot2_ReadsAt m s (suc n) magic entry_sz size no_wrap) lt in
      let some_memory : (memory_size == 0) ≡ false = not_zero memory_size low in
      let some_blocks : (booted.0 == 0) ≡ false = rw blocks (not_zero_quotient memory_size low) in
      let same_units : b'.bmp_sz ≡ booted.1.bmp_sz =
        marked.exact.units ∙ ap (λ t. t / 32 + 1) marked.total ∙ sym exact.units in
      (
        at_entry s (suc n),
        b',
        rw (kmemory_prepare, some_memory, some_blocks) map_read,
        marked.total ∙ total ∙ blocks,
        marked.exact,
        λ c lt_c.
            both_marks (used b'.m_bmp c) (used booted.1.m_bmp c) _ _ (marked.digits c)
              (digits c (rw same_units at lt_c)),
      )
