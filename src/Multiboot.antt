-- ===== src/Multiboot.antt =====
-- kernel/kernel/etc/multiboot.c: what the boot loader says of the memory. Pointers are words.
-- `multiboot_find_rdsp` has an empty body.
pub mod Structs
pub mod Tags
pub mod MemoryMap
mod Examples
use missy_micro.Common.{
  ℕ, zero, suc, ◌+◌, ◌-◌, ◌*◌, ◌/◌, ◌%◌, ◌^◌, bit_and, Bool, true, false, not, Option, none, some,
}
use missy_micro.Common.{ltb, ◌==◌, if◌then◌else◌, u32, sub32, List, [], ◌∷◌}
use missy_micro.Terminal.{Terminal, terminal_puts}
use missy_micro.Multiboot.Structs.{
  MultibootInfo, multiboot_info, MemoryMapInf, memory_map_inf, Multiboot2Tag, multiboot2_tag,
  Multiboot2TagMemsz, multiboot2_tag_memsz, Multiboot2TagMmap, multiboot2_tag_mmap,
  Multiboot2EntryMmap, multiboot2_entry_mmap, MmapData,
}

abbrev pub memsz_present : ℕ
memsz_present = 0x0001

abbrev pub mmap_present : ℕ
mmap_present = 0x0040

abbrev pub multiboot_magic : ℕ
multiboot_magic = 0x2badb002

abbrev pub multiboot2_magic : ℕ
multiboot2_magic = 0x36d76289

abbrev pub typetag_end : ℕ
typetag_end = 0

abbrev pub typetag_memsz : ℕ
typetag_memsz = 4

abbrev pub typetag_mmap : ℕ
typetag_mmap = 6

-- The static variables.
pub record Multiboot : Type 0 where
  pub boot_magic : ℕ
  pub mb_memory_sz : ℕ
  pub mb_inf : ℕ
  pub mb_memory_map : ℕ
  pub multiboot_cur_mmap : ℕ
  pub mb2_start : ℕ
  pub mb2_memory_map : ℕ

abbrev pub bootflag_check : ℕ → ℕ → Bool
bootflag_check x y = not (bit_and x y == 0)

-- The tag after the one at `tag`.
unfoldable pub next_tag : (ℕ → ℕ) → ℕ → ℕ
next_tag m tag = u32 (tag + bit_and (u32 ((multiboot2_tag m tag).size + 7)) 0xfffffff8)

-- The loop of `mboot2_find_tag`; 0 is NULL. `none` is running out of fuel.
unfoldable pub find_tag_from : (ℕ → ℕ) → ℕ → ℕ → ℕ → Option ℕ
find_tag_from m tag tag_type zero = none
find_tag_from m tag tag_type (suc fuel) =
    let rest = find_tag_from m (next_tag m tag) tag_type fuel in
    if (multiboot2_tag m tag).kind == typetag_end
    then some 0
    else if (multiboot2_tag m tag).kind == tag_type
    then some tag
    else rest

-- "mb2_start is NULL"
abbrev start_is_null : List ℕ
start_is_null =
    109 ∷ 98 ∷ 50 ∷ 95 ∷ 115 ∷ 116 ∷ 97 ∷ 114 ∷ 116 ∷ 32 ∷ 105 ∷ 115 ∷ 32 ∷ 78 ∷ 85 ∷ 76 ∷ 76 ∷ []

-- `mb2_start+8` is 8 tags of 8 bytes on.
unfoldable pub mboot2_find_tag : (ℕ → ℕ) → Multiboot → Terminal → ℕ → ℕ → Option ℕ × Terminal
mboot2_find_tag m s t tag_type fuel =
    if s.mb2_start == 0
    then (some 0, terminal_puts t start_is_null)
    else (find_tag_from m (u32 (s.mb2_start + 64)) tag_type fuel, t)

-- The result of `multiboot_data_init`: -1 or 0.
pub data Status : Type 0 where
  ok failed : Status

-- The first branch.
unfoldable pub init_multiboot : (ℕ → ℕ) → Multiboot → ℕ → Status × Multiboot
init_multiboot m s mb_ptr =
    let info = multiboot_info m mb_ptr in
    let found = record s { mb_inf = mb_ptr } in
    let sized = record found { mb_memory_sz = u32 (info.memory_sz_lo + info.memory_sz_hi) } in
    if not (bootflag_check info.flags memsz_present)
    then (Status.failed, found)
    else if not (bootflag_check info.flags mmap_present)
    then (Status.failed, sized)
    else (Status.ok, record sized { mb_memory_map = info.mmap_addr })

-- After the second search.
unfoldable pub found_mmap : Multiboot → Option ℕ × Terminal → Option (Status × Multiboot) × Terminal
found_mmap s (none, t) = (none, t)
found_mmap s (some mmap, t) =
    (some (if mmap == 0 then Status.failed else Status.ok, record s { mb2_memory_map = mmap }), t)

-- After the first search.
unfoldable pub found_memsz :
    (ℕ → ℕ) → Multiboot → ℕ → Option ℕ × Terminal → Option (Status × Multiboot) × Terminal
found_memsz m s fuel (none, t) = (none, t)
found_memsz m s fuel (some msize, t) =
    let tag = multiboot2_tag_memsz m msize in
    let sized = record s { mb_memory_sz = u32 (tag.mem_lower + tag.mem_upper) } in
    if msize == 0
    then (some (Status.failed, s), t)
    else found_mmap sized (mboot2_find_tag m sized t typetag_mmap fuel)

unfoldable pub multiboot_data_init :
    (ℕ → ℕ) → Multiboot → Terminal → ℕ → ℕ → ℕ → Option (Status × Multiboot) × Terminal
multiboot_data_init m s t mb_ptr magic fuel =
    let saved = record s { boot_magic = magic } in
    let started = record saved { mb2_start = mb_ptr } in
    if magic == multiboot_magic
    then (some (init_multiboot m saved mb_ptr), t)
    else if magic == multiboot2_magic
    then found_memsz m started fuel (mboot2_find_tag m started t typetag_memsz fuel)
    else (some (Status.failed, saved), t)

unfoldable pub multiboot_get_memsz : Multiboot → ℕ
multiboot_get_memsz s = s.mb_memory_sz

-- The next entry, or 0.
unfoldable pub multiboot_next_mmap : (ℕ → ℕ) → Multiboot → ℕ × Multiboot
multiboot_next_mmap m s =
    let mmap_entries = (multiboot_info m s.mb_inf).mmap_length / 24 in
    let sz = (memory_map_inf m s.mb_memory_map).sz in
    let entry = u32 (s.mb_memory_map + sz + 4 + s.multiboot_cur_mmap * 24) in
    if ltb s.multiboot_cur_mmap mmap_entries
    then (entry, record s { multiboot_cur_mmap = s.multiboot_cur_mmap + 1 })
    else (0, s)

-- The same for the other format. `none` is a division by 0.
unfoldable pub mboot2_next_mmap : (ℕ → ℕ) → Multiboot → Option (ℕ × Multiboot)
mboot2_next_mmap m s =
    let map = multiboot2_tag_mmap m s.mb2_memory_map in
    let mmap_entries = sub32 map.tag.size 16 / map.entry_sz in
    let entry = u32 (s.mb2_memory_map + 16 + 24 * s.multiboot_cur_mmap) in
    if map.entry_sz == 0
    then none
    else if ltb s.multiboot_cur_mmap mmap_entries
    then some (entry, record s { multiboot_cur_mmap = s.multiboot_cur_mmap + 1 })
    else some (0, s)

-- The copies of an entry to the buffer.
unfoldable pub copy_entry : (ℕ → ℕ) → ℕ → MmapData
copy_entry m p =
    let entry = memory_map_inf m p in
    record { base = entry.base_addr; len = entry.len; kind = entry.kind }

unfoldable pub copy_entry2 : (ℕ → ℕ) → ℕ → MmapData
copy_entry2 m p =
    let entry = multiboot2_entry_mmap m p in
    record { base = entry.base_addr; len = entry.len; kind = entry.kind }

-- The buffer where an entry is returned; the inner `none` is NULL.
unfoldable pub fill_buffer : (ℕ → MmapData) → ℕ × Multiboot → Option MmapData × Multiboot
fill_buffer copy (entry, s) = (if entry == 0 then none else some (copy entry), s)

unfoldable pub multiboot_get_mmap_next : (ℕ → ℕ) → Multiboot → Option (Option MmapData × Multiboot)
multiboot_get_mmap_next m s =
    if s.boot_magic == multiboot_magic
    then some (fill_buffer (copy_entry m) (multiboot_next_mmap m s))
    else if s.boot_magic == multiboot2_magic
    then elim (mboot2_next_mmap m s) [
      | none ↦ none
      | some next ↦ some (fill_buffer (copy_entry2 m) next)
    ]
    else some (none, s)
