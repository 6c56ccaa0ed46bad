-- ===== src/Multiboot/MemoryMap.antt =====
-- The entries that `multiboot_get_mmap_next` reads.
use missy_micro.Common.{ℕ, zero, suc, ◌+◌, ◌*◌, ◌/◌, ◌^◌, ◌≡◌, ◌<◌, refl, ap, ◌∙◌, arith, u32}
use missy_micro.Common.{sub32}
use missy_micro.Common.{none, some, ◌==◌, ltb, true, false, List, [], ◌∷◌}
use missy_micro.Multiboot.Structs.{MmapData, multiboot_info, memory_map_inf, multiboot2_tag_mmap}
use missy_micro.Multiboot.{Multiboot, multiboot_get_mmap_next, multiboot_next_mmap}
use missy_micro.Multiboot.{mboot2_next_mmap, fill_buffer, copy_entry, copy_entry2}

-- What calls of the function return until the first NULL, in at most `n` calls.
abbrev pub entries_read : (ℕ → ℕ) → Multiboot → ℕ → List MmapData
entries_read m s zero = []
entries_read m s (suc n) = elim (multiboot_get_mmap_next m s) [
  | none ↦ []
  | some result ↦ elim result.0 [ none ↦ [] | some entry ↦ entry ∷ entries_read m result.1 n ]
]

-- `n` entries of 24 bytes from `p` on.
abbrev pub entries_from : (ℕ → MmapData) → ℕ → ℕ → List MmapData
entries_from copy p zero = []
entries_from copy p (suc n) = copy p ∷ entries_from copy (p + 24) n

-- The state after `cur` entries.
abbrev pub at_entry : Multiboot → ℕ → Multiboot
at_entry s cur = record s { multiboot_cur_mmap = cur }

-- A call reads one of `total` entries from `first` on, or NULL after the last.
abbrev pub ReadsAt : (ℕ → ℕ) → Multiboot → (ℕ → MmapData) → ℕ → ℕ → Type 0
ReadsAt m s copy first total =
    ((cur : ℕ)
      → cur < total
      → multiboot_get_mmap_next m (at_entry s cur)
        ≡ some (some (copy (first + 24 * cur)), at_entry s (cur + 1)))
    × (multiboot_get_mmap_next m (at_entry s total) ≡ some (none, at_entry s total))

entries_read_from :
    (m : ℕ → ℕ) (s : Multiboot) (copy : ℕ → MmapData) (first total left cur fuel : ℕ)
    → ReadsAt m s copy first total
    → cur + left ≡ total
    → left < fuel
    → entries_read m (at_entry s cur) fuel ≡ entries_from copy (first + 24 * cur) left
entries_read_from m s copy first total left cur zero h e lt = elim lt [ ]
entries_read_from m s copy first total zero cur (suc fuel) h e lt =
    let at_end : total ≡ cur = omega arith in rw (entries_read, rw at_end at h.1) refl
entries_read_from m s copy first total (suc left) cur (suc fuel) h e lt =
    let there : first + 24 * (cur + 1) ≡ first + 24 * cur + 24 = omega arith in
    rw (entries_read, h.0 cur (omega arith))
      (ap (λ es. copy (first + 24 * cur) ∷ es)
        (entries_read_from m s copy first total left (cur + 1) fuel h (omega arith) (omega arith)
          ∙ ap (λ p. entries_from copy p left) there))

all_read :
    (m : ℕ → ℕ) (s : Multiboot) (copy : ℕ → MmapData) (first n fuel : ℕ)
    → first + 24 * 0 ≡ first
    → s.multiboot_cur_mmap ≡ 0
    → ReadsAt m s copy first n
    → n < fuel
    → entries_read m s fuel ≡ entries_from copy first n
all_read m s copy first n fuel here start h lt =
    ap (λ cur. entries_read m (at_entry s cur) fuel) start
    ∙ entries_read_from m s copy first n n 0 fuel h (omega arith) lt
    ∙ ap (λ p. entries_from copy p n) here

pub mboot2_ReadsAt :
    (m : ℕ → ℕ) (s : Multiboot) (n : ℕ)
    → s.boot_magic ≡ 0x36d76289
    → (multiboot2_tag_mmap m s.mb2_memory_map).entry_sz ≡ 24
    → (multiboot2_tag_mmap m s.mb2_memory_map).tag.size ≡ 16 + 24 * n
    → s.mb2_memory_map + 16 + 24 * n < 2 ^ 32
    → ReadsAt m s (copy_entry2 m) (s.mb2_memory_map + 16) n
unfolding multiboot_get_mmap_next mboot2_next_mmap fill_buffer
mboot2_ReadsAt m s n magic entry_sz size no_wrap =
    let entries : sub32 (16 + 24 * n) 16 / 24 ≡ n = omega arith in
    let stop : ltb n n ≡ false = ground arith in
    (
      λ cur lt.
          let go : ltb cur n ≡ true = ground arith in
          let address : u32 (s.mb2_memory_map + 16 + 24 * cur) ≡ s.mb2_memory_map + 16 + 24 * cur =
            omega arith in
          let there : (s.mb2_memory_map + 16 + 24 * cur == 0) ≡ false = ground arith in
          rw (magic, entry_sz, size, entries, go, address, there) refl,
      rw (magic, entry_sz, size, entries, stop) refl,
    )

-- In the second format, from the start, with a map of n entries of 24 bytes that does not wrap
-- round the end of memory, the calls of `multiboot_get_mmap_next`, if there are more than n,
-- return exactly the entries of the map, in order, and then NULL.
pub entries_read_mboot2 :
    (m : ℕ → ℕ) (s : Multiboot) (n fuel : ℕ)
    → s.boot_magic ≡ 0x36d76289
    → s.multiboot_cur_mmap ≡ 0
    → (multiboot2_tag_mmap m s.mb2_memory_map).entry_sz ≡ 24
    → (multiboot2_tag_mmap m s.mb2_memory_map).tag.size ≡ 16 + 24 * n
    → s.mb2_memory_map + 16 + 24 * n < 2 ^ 32
    → n < fuel
    → entries_read m s fuel ≡ entries_from (copy_entry2 m) (s.mb2_memory_map + 16) n
entries_read_mboot2 m s n fuel magic start entry_sz size no_wrap lt =
    let here : s.mb2_memory_map + 16 + 24 * 0 ≡ s.mb2_memory_map + 16 = omega arith in
    all_read m s (copy_entry2 m) (s.mb2_memory_map + 16) n fuel here start
      (mboot2_ReadsAt m s n magic entry_sz size no_wrap) lt

mboot1_ReadsAt :
    (m : ℕ → ℕ) (s : Multiboot) (n : ℕ)
    → s.boot_magic ≡ 0x2badb002
    → (multiboot_info m s.mb_inf).mmap_length ≡ 24 * n
    → (memory_map_inf m s.mb_memory_map).sz ≡ 20
    → s.mb_memory_map + 24 + 24 * n < 2 ^ 32
    → ReadsAt m s (copy_entry m) (s.mb_memory_map + 24) n
unfolding multiboot_get_mmap_next multiboot_next_mmap fill_buffer
mboot1_ReadsAt m s n magic len sz no_wrap =
    let entries : 24 * n / 24 ≡ n = omega arith in
    let stop : ltb n n ≡ false = ground arith in
    (
      λ cur lt.
          let go : ltb cur n ≡ true = ground arith in
          let address : u32 (s.mb_memory_map + 20 + 4 + cur * 24)
              ≡ s.mb_memory_map + 24 + 24 * cur =
            omega arith in
          let there : (s.mb_memory_map + 24 + 24 * cur == 0) ≡ false = ground arith in
          rw (magic, len, sz, entries, go, address, there) refl,
      rw (magic, len, sz, entries, stop) refl,
    )

-- In the first format, from the start, with a map of n entries whose first one has the size 20,
-- that does not wrap round the end of memory with one entry more, the calls of
-- `multiboot_get_mmap_next`, if there are more than n, leave out the first entry, return the
-- others in order, then the 24 bytes after the map, and then NULL.
pub entries_read_mboot1 :
    (m : ℕ → ℕ) (s : Multiboot) (n fuel : ℕ)
    → s.boot_magic ≡ 0x2badb002
    → s.multiboot_cur_mmap ≡ 0
    → (multiboot_info m s.mb_inf).mmap_length ≡ 24 * n
    → (memory_map_inf m s.mb_memory_map).sz ≡ 20
    → s.mb_memory_map + 24 + 24 * n < 2 ^ 32
    → n < fuel
    → entries_read m s fuel ≡ entries_from (copy_entry m) (s.mb_memory_map + 24) n
entries_read_mboot1 m s n fuel magic start len sz no_wrap lt =
    let here : s.mb_memory_map + 24 + 24 * 0 ≡ s.mb_memory_map + 24 = omega arith in
    all_read m s (copy_entry m) (s.mb_memory_map + 24) n fuel here start
      (mboot1_ReadsAt m s n magic len sz no_wrap) lt
